-- ===== src/Memory/FsStore/Names.antt =====
-- The names of the files that the store writes beside a page: none is a page's file, and those of
-- one transaction differ.
use agentspace.Common.{
  ℕ, ◌+◌, ◌-◌, ◌/◌, ◌%◌, ◌≡◌, sym, ap, ◌∙◌, ◌≢◌, [], ◌∷◌, ◌++◌, append_assoc, arith, length, take,
  nat_eq, list_eq, option_eq, Bytes, codes,
}
use agentspace.Common.{snoc_inj, cons_inj, decimal, leading_digits}
use mathlib.Core.List.{append_cancel_right, append_cancel_left}
use agentspace.Memory.Path.{PagePath, FilePath, file_components, file_stem, markdown_extension}
use agentspace.Memory.Path.Valid.{IsValid}
use agentspace.Memory.Path.Resolve.{init-append-last, file_components_inj}
use agentspace.Memory.FsStore.{parent_of, file_name_of, temp_path_for, transaction_path_for}

-- A path whose last component ends in `.md`.
pub record IsPageFile (x : FilePath) : Type 0 where
  pub directory : FilePath
  pub stem : Bytes
  pub named : x ≡ directory ++ (stem ++ markdown_extension) ∷ []

pub full_path_of : FilePath → PagePath → FilePath
full_path_of root p = root ++ file_components p

pub full-IsPageFile : (root : FilePath) (p : PagePath) → IsPageFile (root ++ file_components p)
unfolding file_components
full-IsPageFile root p = record {
  directory = root ++ take (length p.segments - 1) p.segments;
  stem = file_stem p;
  named = sym (append_assoc root (take (length p.segments - 1) p.segments) _);
}

pub full_path_inj :
    (root : FilePath) (p q : PagePath)
    → IsValid p
    → IsValid q
    → root ++ file_components p ≡ root ++ file_components q
    → p ≡ q
full_path_inj root p q v w h =
    file_components_inj p q v w (append_cancel_left root (file_components p) (file_components q) h)

page_file_nonempty : (x : FilePath) → IsPageFile x → x ≢ []
page_file_nonempty x h e = nonempty h.directory (sym h.named ∙ e)
  where
    nonempty : (d : FilePath) → d ++ (h.stem ++ markdown_extension) ∷ [] ≢ []
    nonempty [] k = cc
    nonempty (c ∷ d) k = cc

-- A name that ends in a decimal digit is none that ends in `.md`.
digit_name :
    (d e : FilePath) (u v : Bytes) (n : ℕ)
    → d ++ (u ++ (b'0' + n % 10) ∷ []) ∷ [] ≢ e ++ (v ++ markdown_extension) ∷ []
digit_name d e u v n h =
    let (_, names) = snoc_inj d e _ _ h in
    let (_, last) =
      snoc_inj u (v ++ b'.' ∷ b'm' ∷ []) _ b'd'
        (names ∙ sym (append_assoc v (b'.' ∷ b'm' ∷ []) (b'd' ∷ []))) in
    absurd (omega (arith, last))

module _ (process_id : Bytes) where
  pub transaction_path_ne :
      (o x : FilePath) (marker : Bytes) (id : ℕ)
      → IsPageFile x
      → transaction_path_for process_id o marker id ≢ x
  unfolding transaction_path_for decimal
  transaction_path_ne o x marker id h e =
      digit_name (parent_of o) h.directory
        (b'.'
          ∷ (file_name_of o
              ++ (b'.' ∷ (marker ++ (b'-' ∷ (process_id ++ b'-' ∷ leading_digits 19 (id / 10)))))))
        h.stem id (ap (λ t. parent_of o ++ t ∷ []) (simp append_assoc) ∙ (e ∙ h.named))

  pub temp_path_ne :
      (o x : FilePath) (counter : ℕ) → IsPageFile x → temp_path_for process_id o counter ≢ x
  unfolding temp_path_for decimal
  temp_path_ne o x counter h e =
      digit_name (parent_of o) h.directory
        (b'.'
          ∷ (file_name_of o
              ++ (codes ".tmp-" ++ (process_id ++ b'-' ∷ leading_digits 19 (counter / 10)))))
        h.stem counter (ap (λ t. parent_of o ++ t ∷ []) (simp append_assoc) ∙ (e ∙ h.named))

  pub transaction_path_inj :
      (a b : FilePath) (marker : Bytes) (id : ℕ)
      → IsPageFile a
      → IsPageFile b
      → transaction_path_for process_id a marker id ≡ transaction_path_for process_id b marker id
      → a ≡ b
  unfolding transaction_path_for
  transaction_path_inj a b marker id h k e =
      let (parents, names) = snoc_inj (parent_of a) (parent_of b) _ _ e in
      let (_, bytes) = cons_inj _ _ _ _ names in
      let same : file_name_of a ≡ file_name_of b = append_cancel_right _ _ _ bytes in
      sym (init-append-last (codes "page") a (page_file_nonempty a h))
      ∙ (ap (λ t. t ++ file_name_of a ∷ []) parents
          ∙ (ap (λ t. parent_of b ++ t ∷ []) same
              ∙ init-append-last (codes "page") b (page_file_nonempty b k)))

  pub stage-ne-backup :
      (a b : FilePath) (id : ℕ)
      → transaction_path_for process_id a (codes "stage") id
        ≢ transaction_path_for process_id b (codes "backup") id
  unfolding transaction_path_for
  stage-ne-backup a b id e =
      let (_, names) = snoc_inj (parent_of a) (parent_of b) _ _ e in
      let (_, bytes) = cons_inj _ _ _ _ names in
      let cut : (file_name_of a ++ codes ".stag") ++ b'e' ∷ []
          ≡ (file_name_of b ++ codes ".backu") ++ b'p' ∷ [] =
        append_cancel_right _ _ (b'-' ∷ (process_id ++ b'-' ∷ decimal id))
          (simp append_assoc bytes) in
      let (_, last) = snoc_inj _ _ _ _ cut in absurd (omega (arith, last))
