-- ===== src/Files/Laws.antt =====
-- What reading gives after writing and removing.
use lottie_orchestrator.Prelude.{
  ◌≡◌, refl, ap, sym, ◌↔◌, none, some, true, false, [], ◌∷◌, arith, Bool-cases, inl, inr,
  if◌then◌else◌,
}
use lottie_orchestrator.Prelude.Texts.{Text}
use lottie_orchestrator.Prelude.Walks.{text_eq_iff}
use lottie_orchestrator.Files.{FilePath, Files, path_eq, is_under, read, write, rmtree}

pub path_eq_iff : (s t : FilePath) → (path_eq s t ≡ true) ↔ (s ≡ t)
path_eq_iff [] [] = (λ _. refl, λ _. refl)
path_eq_iff [] (d ∷ t) = (λ h. cc, λ h. cc)
path_eq_iff (c ∷ s) [] = (λ h. cc, λ h. cc)
path_eq_iff (c ∷ s) (d ∷ t) = (
  λ h. ground (arith, path_eq_iff s t, text_eq_iff c d),
  λ h. ground (arith, path_eq_iff s t, text_eq_iff c d),
)

pub path_eq_refl : (p : FilePath) → path_eq p p ≡ true
path_eq_refl p = (path_eq_iff p p).1 refl

path_eq-ne : (p q r : FilePath) → path_eq p q ≡ true → path_eq q r ≡ path_eq p r
path_eq-ne p q r h = ap (λ x. path_eq x r) (sym ((path_eq_iff p q).0 h))

-- A write changes what is read at its path alone.
pub read-write :
    (p q : FilePath) (content : Text) (files : Files)
    → read q (write p content files) ≡ (if path_eq p q then some content else read q files)
unfolding read write
read-write p q content [] = refl
read-write p q content ((r, old) ∷ files) = elim (Bool-cases (path_eq r p)) [
  | inl e ↦ let same = path_eq-ne r p q e in ground arith
  | inr e ↦
      let rec = read-write p q content files in
      let apart : path_eq p q ≡ true → path_eq r q ≡ false = λ h. rw (← (path_eq_iff p q).0 h) e in
      ground arith
]

-- Below a directory that was removed there is nothing, and elsewhere all is as before.
pub read-rmtree :
    (dir q : FilePath) (files : Files)
    → read q (rmtree dir files) ≡ (if is_under dir q then none else read q files)
unfolding read rmtree
read-rmtree dir q [] = elim (Bool-cases (is_under dir q)) [ inl e ↦ rw e refl | inr e ↦ rw e refl ]
read-rmtree dir q ((r, old) ∷ files) =
    let rec = read-rmtree dir q files in
    let same : path_eq r q ≡ true → is_under dir r ≡ is_under dir q =
      λ h. ap (λ x. is_under dir x) ((path_eq_iff r q).0 h) in
    elim (Bool-cases (path_eq r q)) [
      | inl e ↦ let e' = same e in ground arith
      | inr e ↦ ground arith
    ]
