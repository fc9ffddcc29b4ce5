-- ===== src/Memory/Links/Scan.antt =====
-- The links that `parse_links` finds lie in order in the body, and its loop ends.
use mathlib.Core.List.{head?}
use agentspace.Common.{
  ℕ, zero, suc, ◌+◌, ◌-◌, ◌≤◌, ◌<◌, ◌≡◌, refl, inl, inr, ◌&&◌, Option, some, List, [], ◌∷◌, arith,
  ltb, Bool-cases, Option-cases, length, drop, slice, length-drop, drop-drop, ◌==◌, nat_eq,
  option_beq_iff, list_eq, option_eq, Bytes, find_byte, find_byte_sound,
}
use agentspace.Memory.Path.{PagePath}
use agentspace.Memory.Links.{
  ParsedLink, Round, stop, skip, found, at_paren, at_close, scan_round, continue, parse_links_from,
  parse_links, resolve_relative_target, base_dir_of,
}

-- A link that stands at `index` or behind it: its target is the slice of the body between a `(` and
-- the next `)`, and it resolves as that slice does.
pub record IsLink (base_dir : List Bytes) (body : Bytes) (index : ℕ) (l : ParsedLink) : Type 0 where
  pub after : index + 2 < l.target_start
  pub ordered : l.target_start ≤ l.target_end
  pub within : l.target_end < length body
  pub opened : head? (drop (l.target_start - 1) body) ≡ some b'('
  pub closed : head? (drop l.target_end body) ≡ some b')'
  pub target : l.raw_target ≡ slice l.target_start l.target_end body
  pub resolves : l.resolved ≡ resolve_relative_target base_dir l.raw_target

-- The links follow one another, the first at `index` or behind it.
abbrev pub AreLinks : List Bytes → Bytes → ℕ → List ParsedLink → Type 0
AreLinks base_dir body index [] = Unit
AreLinks base_dir body index (l ∷ ls) =
    IsLink base_dir body index l × AreLinks base_dir body (l.target_end + 1) ls

abbrev GoodRound : List Bytes → Bytes → ℕ → Round → Type 0
GoodRound base_dir body index stop = Unit
GoodRound base_dir body index (skip next) = (index < next) × (next ≤ length body)
GoodRound base_dir body index (found l next) =
    IsLink base_dir body index l × (next ≡ l.target_end + 1)

found_in_rest :
    (b i n : ℕ) (body : Bytes)
    → find_byte b (drop i body) ≡ some n
    → (i + n < length body) × (head? (drop (i + n) body) ≡ some b)
found_in_rest b i n body h =
    let (below, here) = find_byte_sound b (drop i body) n h in
    (omega (arith, length-drop i body), rw (← drop-drop n i body) here)

module _ (base_dir : List Bytes) (body : Bytes) where
  at_paren-GoodRound :
      (index bracket_pos close_bracket paren_open : ℕ)
      → index ≤ bracket_pos
      → bracket_pos < close_bracket
      → paren_open ≡ close_bracket + 1
      → head? (drop paren_open body) ≡ some b'('
      → GoodRound base_dir body index (
          at_paren base_dir body bracket_pos close_bracket paren_open
            (find_byte b')' (drop (paren_open + 1) body)))
  unfolding at_paren
  at_paren-GoodRound index b c p h k q here =
      elim (Option-cases (find_byte b')' (drop (p + 1) body))) [
        | inl e ↦ rw e tt
        | inr (r, e) ↦
            let (below, closed) = found_in_rest b')' (p + 1) r body e in
            rw e (
              record {
                after = omega arith;
                ordered = omega arith;
                within = below;
                opened = (let back : p + 1 - 1 ≡ p = omega arith in rw back here);
                closed = closed;
                target = refl;
                resolves = refl;
              },
              refl,
            )
      ]

  at_close-GoodRound :
      (index bracket_pos : ℕ)
      → index ≤ bracket_pos
      → bracket_pos < length body
      → GoodRound base_dir body index
          (at_close base_dir body bracket_pos (find_byte b']' (drop (bracket_pos + 1) body)))
  unfolding at_close
  at_close-GoodRound index b h k = elim (Option-cases (find_byte b']' (drop (b + 1) body))) [
    | inl e ↦ rw e tt
    | inr (r, e) ↦ elim (Bool-cases (head? (drop (b + 1 + r + 1) body) == some b'(')) [
      | inl t ↦
          rw (e, t)
            (at_paren-GoodRound index b (b + 1 + r) (b + 1 + r + 1) h (omega arith) refl
              ((option_beq_iff (head? (drop (b + 1 + r + 1) body)) (some b'(')).0 t))
      | inr t ↦ rw (e, t) (omega arith, omega arith)
    ]
  ]

  scan_round-GoodRound :
      (index : ℕ) → GoodRound base_dir body index (scan_round base_dir body index)
  unfolding scan_round
  scan_round-GoodRound index = elim (Option-cases (find_byte b'[' (drop index body))) [
    | inl e ↦ rw e tt
    | inr (o, e) ↦
        let (below, _) = found_in_rest b'[' index o body e in
        elim (Bool-cases (ltb 0 (index + o) && head? (drop (index + o - 1) body) == some b'!')) [
          | inl t ↦ rw (e, t) (omega arith, omega arith)
          | inr t ↦ rw (e, t) (at_close-GoodRound index (index + o) (omega arith) below)
        ]
  ]

  AreLinks-mono :
      (index next : ℕ) (ls : List ParsedLink)
      → index ≤ next
      → AreLinks base_dir body next ls
      → AreLinks base_dir body index ls
  AreLinks-mono index next [] h a = tt
  AreLinks-mono index next (l ∷ ls) h (a, as') = (
    record {
      after = omega (arith, a.after);
      ordered = a.ordered;
      within = a.within;
      opened = a.opened;
      closed = a.closed;
      target = a.target;
      resolves = a.resolves;
    },
    as',
  )

  -- The loop returns from `index`, with links in order.
  abbrev Scans : ℕ → Option (List ParsedLink) → Type 0
  Scans index result =
      (links : List ParsedLink) × (result ≡ some links) × AreLinks base_dir body index links

  continue-Scans :
      (rest : ℕ → Option (List ParsedLink)) (index : ℕ) (r : Round)
      → ((next : ℕ) → index < next → next ≤ length body → Scans next (rest next))
      → GoodRound base_dir body index r
      → Scans index (continue base_dir body rest r)
  continue-Scans rest index stop k g = ([], refl, tt)
  continue-Scans rest index (skip next) k (lt, le) =
      let (links, e, a) = k next lt le in (links, e, AreLinks-mono index next links (omega arith) a)
  continue-Scans rest index (found l next) k (a, e) =
      let (links, returned, as') =
        k next (omega (arith, a.after, a.ordered)) (omega (arith, a.within)) in
      (l ∷ links, rw returned, (a, rw e at as'))

  pub parse_links_from-Scans :
      (fuel index : ℕ)
      → index ≤ length body
      → length body < fuel + index
      → Scans index (parse_links_from base_dir body fuel index)
  unfolding parse_links_from
  parse_links_from-Scans zero index k h = absurd (omega arith)
  parse_links_from-Scans (suc fuel) index k h =
      continue-Scans (parse_links_from base_dir body fuel) index (scan_round base_dir body index)
        (λ next lt le. parse_links_from-Scans fuel next le (omega arith))
        (scan_round-GoodRound index)

pub parse_links_total :
    (page_path : PagePath) (body : Bytes)
    → (parse_links_from (base_dir_of page_path) body (suc (length body)) 0
        ≡ some (parse_links page_path body))
      × AreLinks (base_dir_of page_path) body 0 (parse_links page_path body)
unfolding parse_links
parse_links_total page_path body =
    let (links, e, a) =
      parse_links_from-Scans (base_dir_of page_path) body (suc (length body)) 0 (omega arith)
        (omega arith) in
    rw e (refl, a)
