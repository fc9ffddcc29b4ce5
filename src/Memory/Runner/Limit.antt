-- ===== src/Memory/Runner/Limit.antt =====
-- The output limit holds in every interleaving of the two copying tasks.
use agentspace.Common.{
  ℕ, ◌+◌, ◌≤◌, min, ◌≡◌, refl, sym, ap, ◌∙◌, ◌≢◌, ◌↔◌, inl, inr, Bool, true, false, List, [], ◌∷◌,
  ◌++◌, append-nil, append_assoc, arith, leb, if◌then◌else◌, Bool-cases, length, take, drop,
  length-append, length-take, take-append-drop, take_all, nat_eq, list_eq, option_eq, Result, ok,
  err, Bytes,
}
use agentspace.Memory.Runner.{
  Phase, testing, reading, finished, adding, writing, Task, World, to_write, TaskStep, test_stops,
  test_passes, read_ends, read_some, add_total, write_chunk, step_stdout, step_stderr, Reach, here,
  next, Selected, drive_outcome, launched, output_limit_exceeded, spawn, is_allowed,
}

-- How many bytes a task is still to write of what it has added to the total.
abbrev pending_of : ℕ → Phase → ℕ
pending_of max (writing chunk previous) = to_write max previous (length chunk)
pending_of max _ = 0

abbrev pending : ℕ → Task → ℕ
pending max t = pending_of max t.phase

-- What is written and what is to be written is the total, cut at the limit.
abbrev Counted : ℕ → World → Type 0
Counted max w =
    length w.stdout.sink + pending max w.stdout + (length w.stderr.sink + pending max w.stderr)
    ≡ min w.total max

settled : (max : ℕ) (b : Bool) → pending_of max (if b then finished else testing) ≡ 0
settled max true = refl
settled max false = refl

TaskStep-counted :
    {max total total' : ℕ} {hit hit' : Bool} {t t' : Task} (others : ℕ)
    → TaskStep max total hit t total' hit' t'
    → length t.sink + pending max t + others ≡ min total max
    → length t'.sink + pending max t' + others ≡ min total' max
TaskStep-counted others (test_stops total t e) h = rw e at h
TaskStep-counted others (test_passes total t e) h = rw e at h
TaskStep-counted others (read_ends total hit t e) h = rw e at h
TaskStep-counted others (read_some total hit t chunk e _ _) h = rw e at h
TaskStep-counted {max} others (add_total total hit t chunk e) h =
    unfold to_write in let h' = rw e at h in omega arith
TaskStep-counted {max} others (write_chunk total hit t chunk previous e) h =
    let h' = rw e at h in
    rw (settled max (leb max (previous + length chunk))) (
      unfold to_write in
      omega (
        arith,
        length-append t.sink (take (to_write max previous (length chunk)) chunk),
        length-take (to_write max previous (length chunk)) chunk,
        h',
      ))

Reach-Counted : {max : ℕ} {w : World} → Reach max w → Counted max w
Reach-Counted here = omega arith
Reach-Counted (next r (step_stdout w s)) =
    TaskStep-counted (length w.stderr.sink + pending _ w.stderr) s (Reach-Counted r)
Reach-Counted {max} (next {w = w} r (step_stderr _ {total} {hit} {t} s)) =
    let h = Reach-Counted r in
    let k = TaskStep-counted (length w.stdout.sink + pending max w.stdout) s (omega (arith, h)) in
    omega (arith, k)

-- In every interleaving of the two tasks, what both sinks hold together is at most the limit, and
-- at most what was read.
pub output_bounded :
    (max : ℕ) (w : World)
    → Reach max w
    → (length w.stdout.sink + length w.stderr.sink ≤ max)
      × (length w.stdout.sink + length w.stderr.sink ≤ w.total)
output_bounded max w r = let h = Reach-Counted r in (omega (arith, h), omega (arith, h))

-- What a task has written, and what it holds in hand, against what it has read.
abbrev KeepsAt : Bool → Bytes → Bytes → Phase → Type 0
KeepsAt hit received sink testing = sink ≡ received
KeepsAt hit received sink reading = sink ≡ received
KeepsAt hit received sink (adding chunk) = sink ++ chunk ≡ received
KeepsAt hit received sink (writing chunk previous) = sink ++ chunk ≡ received
KeepsAt hit received sink finished =
    ((rest : Bytes) × (received ≡ sink ++ rest)) × (hit ≡ false → sink ≡ received)

abbrev Keeps : Bool → Task → Type 0
Keeps hit t = KeepsAt hit t.received t.sink t.phase

finish-same :
    (hit : Bool) (received sink : Bytes) → sink ≡ received → KeepsAt hit received sink finished
finish-same hit received sink e = (([], sym e ∙ sym (append-nil sink)), λ _. e)

TaskStep-Keeps :
    {max total total' : ℕ} {hit hit' : Bool} {t t' : Task}
    → TaskStep max total hit t total' hit' t'
    → Keeps hit t
    → Keeps hit' t'
TaskStep-Keeps (test_stops total t e) h = finish-same true t.received t.sink (rw e at h)
TaskStep-Keeps (test_passes total t e) h = rw e at h
TaskStep-Keeps (read_ends total hit t e) h = finish-same hit t.received t.sink (rw e at h)
TaskStep-Keeps (read_some total hit t chunk e _ _) h = ap (λ s. s ++ chunk) (rw e at h)
TaskStep-Keeps (add_total total hit t chunk e) h = rw e at h
TaskStep-Keeps {max} (write_chunk total hit t chunk previous e) h =
    let k = to_write max previous (length chunk) in
    elim (Bool-cases (leb max (previous + length chunk))) [
      | inl b ↦ rw b (
        (
          drop k chunk,
          sym (rw e at h)
              ∙ (ap (λ c. t.sink ++ c) (sym (take-append-drop k chunk))
                  ∙ sym (append_assoc t.sink (take k chunk) (drop k chunk))),
        ),
        λ f. cc,
      )
      | inr b ↦
          rw b (
            ap (λ c. t.sink ++ c) (take_all k chunk (unfold to_write in ground arith))
            ∙ (rw e at h))
    ]

TaskStep-hit :
    {max total total' : ℕ} {hit hit' : Bool} {t t' : Task}
    → TaskStep max total hit t total' hit' t'
    → hit' ≡ false
    → hit ≡ false
TaskStep-hit (test_stops total t e) f = f
TaskStep-hit (test_passes total t e) f = f
TaskStep-hit (read_ends total hit t e) f = f
TaskStep-hit (read_some total hit t chunk e _ _) f = f
TaskStep-hit (add_total total hit t chunk e) f = f
TaskStep-hit {max} (write_chunk total hit t chunk previous e) f = ground arith

KeepsAt-hit :
    (hit hit' : Bool) (received sink : Bytes) (p : Phase)
    → (hit' ≡ false → hit ≡ false)
    → KeepsAt hit received sink p
    → KeepsAt hit' received sink p
KeepsAt-hit hit hit' received sink testing f h = h
KeepsAt-hit hit hit' received sink reading f h = h
KeepsAt-hit hit hit' received sink (adding c) f h = h
KeepsAt-hit hit hit' received sink (writing c n) f h = h
KeepsAt-hit hit hit' received sink finished f (h, k) = (h, λ e. k (f e))

Reach-Keeps :
    {max : ℕ} {w : World} → Reach max w → Keeps w.limit_hit w.stdout × Keeps w.limit_hit w.stderr
Reach-Keeps here = (refl, refl)
Reach-Keeps (next r (step_stdout w s)) =
    let (h, k) = Reach-Keeps r in
    (
      TaskStep-Keeps s h,
      KeepsAt-hit _ _ w.stderr.received w.stderr.sink w.stderr.phase (TaskStep-hit s) k,
    )
Reach-Keeps (next r (step_stderr w s)) =
    let (h, k) = Reach-Keeps r in
    (
      KeepsAt-hit _ _ w.stdout.received w.stdout.sink w.stdout.phase (TaskStep-hit s) h,
      TaskStep-Keeps s k,
    )

-- What a sink lacks of what its task has read.
abbrev IsPrefix : Bytes → Bytes → Type 0
IsPrefix s whole = (rest : Bytes) × (whole ≡ s ++ rest)

KeepsAt-prefix :
    (hit : Bool) (received sink : Bytes) (p : Phase)
    → KeepsAt hit received sink p
    → IsPrefix sink received
KeepsAt-prefix hit received sink testing h = ([], sym h ∙ sym (append-nil sink))
KeepsAt-prefix hit received sink reading h = ([], sym h ∙ sym (append-nil sink))
KeepsAt-prefix hit received sink (adding c) h = (c, sym h)
KeepsAt-prefix hit received sink (writing c n) h = (c, sym h)
KeepsAt-prefix hit received sink finished (h, k) = h

-- In every interleaving of the two tasks each sink holds a first part of what its task has read,
-- with no byte lost, doubled or moved.
pub output_in_order :
    (max : ℕ) (w : World)
    → Reach max w
    → ((rest : Bytes) × (w.stdout.received ≡ w.stdout.sink ++ rest))
      × ((rest : Bytes) × (w.stderr.received ≡ w.stderr.sink ++ rest))
output_in_order max w r =
    let (h, k) = Reach-Keeps r in
    (
      KeepsAt-prefix w.limit_hit w.stdout.received w.stdout.sink w.stdout.phase h,
      KeepsAt-prefix w.limit_hit w.stderr.received w.stderr.sink w.stderr.phase k,
    )

pub drive_complete :
    (max : ℕ) (w : World) (selected : Selected)
    → Reach max w
    → w.stdout.phase ≡ finished
    → w.stderr.phase ≡ finished
    → drive_outcome w selected ≢ output_limit_exceeded
    → (w.stdout.sink ≡ w.stdout.received) × (w.stderr.sink ≡ w.stderr.received)
drive_complete max w selected r p q n =
    let (h, k) = Reach-Keeps r in
    let clear = below_limit w.limit_hit (unfold drive_outcome in λ e. n (rw e)) in
    ((rw p at h).1 clear, (rw q at k).1 clear)
  where
    below_limit : (b : Bool) → (b ≡ true → ⊥) → b ≡ false
    below_limit true f = absurd (f refl)
    below_limit false f = refl

module _ {Child : Type 0} (host : Bytes → List Bytes → Result Bytes Child) where
  -- A child runs exactly when the first argument is on the allowlist and the host could start it
  -- with the other arguments unchanged.
  pub spawn_iff :
      (program : Bytes) (arguments : List Bytes) (child : Child)
      → (spawn host (program ∷ arguments) ≡ ok child)
        ↔ ((is_allowed program ≡ true) × (host program arguments ≡ ok child))
  unfolding spawn
  spawn_iff program arguments child = elim (Bool-cases (is_allowed program)) [
    | inl e ↦
        rw e
          (elim (host program arguments)
            as (λ r. (launched host r ≡ ok child) ↔ ((true ≡ true) × (r ≡ ok child))) [
              | ok c ↦ ((λ h. (refl, cc)), (λ h. cc (h.1)))
              | err t ↦ ((λ h. cc), (λ h. cc (h.1)))
            ])
    | inr e ↦ rw e ((λ h. cc), (λ h. cc (h.0)))
  ]
