-- ===== src/LicenseKeys/Display.antt =====
-- The display form is short: it fits its column and shows little of the key.
use yg_license_server.Base.{
  ℕ, ◌+◌, ◌-◌, ◌≤◌, ◌≡◌, refl, true, some, [], ◌∷◌, ◌++◌, arith, ◌==◌, leb, Bool-cases, inl, inr,
  length, take, drop, length-append, zero, suc,
}
use yg_license_server.Text.{Text}
use yg_license_server.LicenseKeys.{partition, shortened, make_display}

length-take-le : (n : ℕ) (s : Text) → length (take n s) ≤ n
length-take-le zero s = omega arith
length-take-le (suc n) [] = omega arith
length-take-le (suc n) (c ∷ s) = omega (arith, length-take-le n s)

length-drop : (n : ℕ) (s : Text) → length (drop n s) ≡ length s - n
length-drop zero s = omega arith
length-drop (suc n) [] = omega arith
length-drop (suc n) (c ∷ s) = omega (arith, length-drop n s)

length-shortened_long : (body : Text) → 10 ≤ length body → length (shortened body) ≤ 11
length-shortened_long body long =
    let is_long : leb 10 (length body) ≡ true = ground arith in
    rw is_long
      (rw length-append (omega (arith, length-take-le 6 body, length-drop (length body - 4) body)))

-- A key with an underscore is split at the first one: in or right behind the prefix, never later.
partition-prefix :
    (prefix body : Text)
    → (p b : Text) × (partition b'_' (prefix ++ b'_' ∷ body) ≡ some (p, b))
      × (length p ≤ length prefix)
      × (length body ≤ length b)
unfolding partition
partition-prefix [] body = ([], body, refl, omega arith, omega arith)
partition-prefix (c ∷ prefix) body = elim (Bool-cases (c == b'_')) [
  | inl here ↦ (
    [],
    prefix ++ b'_' ∷ body,
    rw here,
    omega arith,
    omega (arith, length-append prefix (b'_' ∷ body)),
  )
  | inr later ↦
      let (p, b, e, short, long) = partition-prefix prefix body in
      (c ∷ p, b, rw (later, e), omega arith, omega arith)
]

-- The display form of a key made of a prefix, an underscore and a body of at least ten characters
-- has at most twelve characters more than the prefix, also where the prefix has underscores.
pub length-make_display :
    (prefix body : Text)
    → 10 ≤ length body
    → length (make_display (prefix ++ b'_' ∷ body)) ≤ length prefix + 12
unfolding make_display
length-make_display prefix body long =
    let (p, b, e, short, longer) = partition-prefix prefix body in
    rw e (rw length-append (omega (arith, length-shortened_long b (omega arith))))
