-- ===== src/Memory/Model.antt =====
-- services/memory_rs/src/model.rs: the records that every transport shares, and revisions.
use agentspace.Common.{
  ℕ, ◌+◌, ◌-◌, ◌/◌, ◌%◌, Bool, Option, List, [], ◌∷◌, ltb, if◌then◌else◌, nat_eq, list_eq,
  option_eq, Bytes,
}
use agentspace.Memory.Crates.{Crates}
use agentspace.Memory.Path.{PagePath}

abbrev pub schema_version_now : ℕ
schema_version_now = 1

-- The lower-case hexadecimal digit of a number below 16.
unfoldable pub hex_digit : ℕ → ℕ
hex_digit n = if ltb n 10 then b'0' + n else b'a' + (n - 10)

unfoldable pub hex : Bytes → Bytes
unfolding hex_digit
hex [] = []
hex (b ∷ bs) = hex_digit (b / 16) ∷ hex_digit (b % 16) ∷ hex bs

-- `Revision::of`: a revision is the text of the digest.
unfoldable pub revision_of : Crates → Bytes → Bytes
revision_of c bytes = hex (c.sha256 bytes)

pub record PageMetadata (c : Crates) : Type 0 where
  pub schema_version : ℕ
  pub title : Bytes
  pub tags : List Bytes
  pub created_at : c.Time
  pub updated_at : c.Time
  pub created_by : Option Bytes
  pub updated_by : Option Bytes
  pub extra : c.Mapping

pub record Page (c : Crates) : Type 0 where
  pub path : PagePath
  pub metadata : PageMetadata c
  pub body : Bytes
  pub revision : Bytes

pub record PageSummary (c : Crates) : Type 0 where
  pub path : Bytes
  pub title : Bytes
  pub tags : List Bytes
  pub updated_at : c.Time

pub record WritePageRequest : Type 0 where
  pub path : PagePath
  pub title : Option Bytes
  pub tags : Option (List Bytes)
  pub body : Bytes
  pub overwrite : Bool
  pub expected_revision : Option Bytes
  pub actor : Option Bytes

pub record MovePageRequest : Type 0 where
  pub source : PagePath
  pub destination : PagePath
  pub expected_revision : Option Bytes
  pub actor : Option Bytes

pub record MoveOutcome : Type 0 where
  pub source : Bytes
  pub destination : Bytes
  pub revision : Bytes
  pub updated_referrers : List Bytes

pub record RemovePageRequest : Type 0 where
  pub path : PagePath
  pub expected_revision : Option Bytes

pub record ListFilter : Type 0 where
  pub under : Option PagePath
  pub with_tags : List Bytes
  pub limit : Option ℕ

pub record QueryRequest : Type 0 where
  pub text : Bytes
  pub filter : ListFilter

pub record TagCount : Type 0 where
  pub tag : Bytes
  pub count : ℕ

pub record PageLink : Type 0 where
  pub text : Bytes
  pub raw_target : Bytes
  pub resolved_path : Option Bytes
  pub broken : Bool

pub record Backlink : Type 0 where
  pub from : Bytes
  pub text : Bytes
  pub raw_target : Bytes

pub record LinksReport : Type 0 where
  pub path : Bytes
  pub outgoing : List PageLink
  pub backlinks : List Backlink
