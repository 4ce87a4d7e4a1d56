-- ===== src/Xfs/Names/Extension.antt =====
-- The names that addext gives to files.
use myexpos.Prelude.{
  ◌≡◌, refl, ap, ◌∙◌, inl, inr, ◌+◌, ◌-◌, ◌≤◌, false, some, [], ◌∷◌, ◌++◌, Bytes, arith, leb, ltb,
  take, drop, length, length-append, length-take, Bool-cases,
}
use myexpos.Prelude.Int.{pos, eq_ℤ}
use myexpos.Libc.{strcmp}
use myexpos.Libc.Strings.{same_strcmp}
use myexpos.Xfs.Names.{addext, cut_ext}

drop_append : (xs ys : Bytes) → drop (length xs) (xs ++ ys) ≡ ys
drop_append [] ys = refl
drop_append (x ∷ xs) ys = drop_append xs ys

-- A name that fits a word, with its NUL, and ends with the extension.
pub record HasExtension (name ext : Bytes) : Type 0 where
  pub fits : length name ≤ 15
  pub ends : drop (length name - length ext) name ≡ ext

appended-HasExtension :
    (name ext : Bytes) → length name + length ext ≤ 15 → HasExtension (name ++ ext) ext
appended-HasExtension name ext h =
    let l = length-append name ext in
    record {
      fits = omega (arith, l, h);
      ends =
          ap (λ n. drop n (name ++ ext)) {x = length (name ++ ext) - length ext} {y = length name}
            (omega (arith, l))
          ∙ drop_append name ext;
    }

cut-HasExtension :
    (name ext : Bytes) → 16 ≤ length name → length ext ≡ 4 → HasExtension (cut_ext name ext) ext
cut-HasExtension name ext h k =
    appended-HasExtension (take 11 name) ext (omega (arith, length-take 11 name, k))

-- With an extension of four characters, a name of at least four characters gets a name that fits a word and
-- ends with the extension. Shorter names are compared from before their start.
pub addext-HasExtension :
    (name ext : Bytes)
    → length ext ≡ 4
    → 4 ≤ length name
    → (r : Bytes) × (addext name ext ≡ some r) × HasExtension r ext
unfolding addext
addext-HasExtension name ext k m = elim (Bool-cases (leb 16 (length name))) [
  | inl e ↦ (cut_ext name ext, rw e refl, cut-HasExtension name ext (ground arith) k)
  | inr e ↦
      let long : ltb (length name) 4 ≡ false = ground arith in
      elim (Bool-cases (eq_ℤ (strcmp (drop (length name - 4) name) ext) (pos 0))) [
        | inl f ↦ (
          name,
          rw (e, long, f) refl,
          record {
            fits = ground arith;
            ends =
                ap (λ n. drop (length name - n) name) k
                ∙ same_strcmp (drop (length name - 4) name) ext (ground arith);
          },
        )
        | inr f ↦ elim (Bool-cases (leb 16 (length (name ++ ext)))) [
          | inl g ↦ (
            cut_ext (name ++ ext) ext,
            rw (e, long, f, g) refl,
            cut-HasExtension (name ++ ext) ext (ground arith) k,
          )
          | inr g ↦ (
            name ++ ext,
            rw (e, long, f, g) refl,
            appended-HasExtension name ext (let l = length-append name ext in ground arith),
          )
        ]
      ]
]
