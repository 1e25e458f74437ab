-- ===== src/Tui/FileBrowser/SaveName.antt =====
-- The file name that the Save mode composes.
use tekflash.Common.{
  EndsIn, EndsInOne, EndsIn-ends_with, ends_with-EndsInOne, EndsInOne-ends_with, ◌≡◌, ◌≢◌, ◌∙◌, sym,
  ap, subst, refl, ||_split, ends_with→eq, Bool-cases, Bool, true, ◌||◌, [], ◌∷◌, ◌++◌, some, Text,
  arith, if◌then◌else◌, ◌⊎◌, inl, inr, ends_with, ends_with_self, to_ascii_lowercase,
  to_lower_append, ends_with-append,
}
use tekflash.Tui.FileBrowser.Ops.{compose, has_known_image_suffix, known_suffixes}

-- The name ends in the extension or in an image suffix that the browser knows, in any letter case.
unfoldable pub settled_name : Text → Text → Bool
settled_name ext name =
    ends_with (to_ascii_lowercase name) (to_ascii_lowercase ext)
    || has_known_image_suffix (to_ascii_lowercase name)

compose_eq :
    (s ext : Text)
    → s ≢ []
    → ext ≢ []
    → compose s (some ext) ≡ (if settled_name ext s then s else s ++ ext)
unfolding compose settled_name
compose_eq [] ext h h' = ground arith
compose_eq (c ∷ s) [] h h' = ground arith
compose_eq (c ∷ s) (x ∷ ext) h h' = refl

settled_append : (s ext : Text) → settled_name ext (s ++ ext) ≡ true
unfolding settled_name
settled_append s ext = ground (
  arith,
  to_lower_append s ext,
  ends_with-append (to_ascii_lowercase s) (to_ascii_lowercase ext) (to_ascii_lowercase ext)
      (ends_with_self (to_ascii_lowercase ext)),
)

-- The name ends in the extension, or in one of the image suffixes, in any letter case.
abbrev pub IsSettled : Text → Text → Type 0
IsSettled ext name =
    EndsIn (to_ascii_lowercase name) (to_ascii_lowercase ext)
    ⊎ EndsInOne (to_ascii_lowercase name) known_suffixes

settled_name-IsSettled : (ext name : Text) → settled_name ext name ≡ true → IsSettled ext name
unfolding settled_name has_known_image_suffix
settled_name-IsSettled ext name h =
    elim (||_split (ends_with (to_ascii_lowercase name) (to_ascii_lowercase ext)) _ h) [
      | inl e ↦ inl (ends_with→eq (to_ascii_lowercase name) (to_ascii_lowercase ext) e)
      | inr e ↦ inr (ends_with-EndsInOne (to_ascii_lowercase name) known_suffixes e)
    ]

IsSettled-settled_name : (ext name : Text) → IsSettled ext name → settled_name ext name ≡ true
unfolding settled_name has_known_image_suffix
IsSettled-settled_name ext name (inl e) =
    ground (arith, EndsIn-ends_with (to_ascii_lowercase name) (to_ascii_lowercase ext) e)
IsSettled-settled_name ext name (inr e) =
    ground (arith, EndsInOne-ends_with (to_ascii_lowercase name) known_suffixes e)

-- The name as it is, or with the extension behind it.
compose-cases :
    (s ext : Text)
    → s ≢ []
    → ext ≢ []
    → (IsSettled ext s × (compose s (some ext) ≡ s))
      ⊎ ((¬ IsSettled ext s) × (compose s (some ext) ≡ s ++ ext))
compose-cases s ext h h' = elim (Bool-cases (settled_name ext s)) [
  | inl e ↦ inl (settled_name-IsSettled ext s e, compose_eq s ext h h' ∙ rw e refl)
  | inr e ↦
      inr (λ k. ground (arith, IsSettled-settled_name ext s k), compose_eq s ext h h' ∙ rw e refl)
]

again-IsSettled :
    (s ext : Text)
    → s ≢ []
    → ext ≢ []
    → IsSettled ext (compose s (some ext))
      × (compose (compose s (some ext)) (some ext) ≡ compose s (some ext))
again-IsSettled s ext h h' = elim (compose-cases s ext h h') [
  | inl (e, k) ↦ (subst (IsSettled ext) (sym k) e, ap (λ x. compose x (some ext)) k)
  | inr (e, k) ↦ (
    subst (IsSettled ext) (sym k) (settled_name-IsSettled ext (s ++ ext) (settled_append s ext)),
    ground (arith, k, compose_eq (s ++ ext) ext, settled_append s ext),
  )
]

-- A name and an extension that are not empty compose to the name itself where that ends in the
-- extension or in an image suffix that the browser knows, in any letter case, and else to the name
-- with the extension behind it. The result ends in one of these, so that composing it with the same
-- extension changes nothing.
pub compose-IsSettled :
    (s ext : Text)
    → s ≢ []
    → ext ≢ []
    → ((IsSettled ext s × (compose s (some ext) ≡ s))
        ⊎ ((¬ IsSettled ext s) × (compose s (some ext) ≡ s ++ ext)))
      × IsSettled ext (compose s (some ext))
      × (compose (compose s (some ext)) (some ext) ≡ compose s (some ext))
compose-IsSettled s ext h h' =
    let (settled, same) = again-IsSettled s ext h h' in (compose-cases s ext h h', settled, same)
