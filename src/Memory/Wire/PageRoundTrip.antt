-- ===== src/Memory/Wire/PageRoundTrip.antt =====
-- Pages over the wire.
use agentspace.Common.{◌≡◌, refl, none, List, nat_eq, list_eq, option_eq, ok, strip_suffix}
use agentspace.Memory.Crates.{Crates}
use agentspace.Memory.Path.{as_str}
use agentspace.Memory.Model.{Page, PageLink}
use agentspace.Memory.Wire.{from_page, try_from}
use agentspace.Memory.Path.{markdown_extension}
use agentspace.Memory.Path.Valid.{IsValid}
use agentspace.Memory.Path.RoundTrip.{parse-as_str}

pub try_from-from_page :
    (c : Crates) (page : Page c) (outgoing_links : List PageLink)
    → IsValid page.path
    → strip_suffix markdown_extension (as_str page.path) ≡ none
    → try_from c (from_page c page outgoing_links) ≡ ok page
unfolding try_from from_page
try_from-from_page c page outgoing_links valid plain = rw (parse-as_str page.path valid plain) refl
