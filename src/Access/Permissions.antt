-- ===== src/Access/Permissions.antt =====
-- include/PluginPermissions.h: the permission flags of a plugin as the bits of a number.
use a_social.Base.{
  ℕ, zero, suc, ◌&&◌, ◌/◌, ◌%◌, ◌^◌, ◌<◌, ◌≡◌, refl, ap, ap₂, ◌∙◌, arith, max, bit_or, Bool, true,
  false, ◌||◌, ◌==◌, if◌then◌else◌, Bool-cases, inl, inr, List, [], ◌∷◌, Text,
}
use a_social.Base.Bits.{bit_or_step, bit_or-div_pow, div-pow_suc}

pub data Permission : Type 0 where
  settings_read settings_write container_read container_write profile_read profile_write
        profile_delete profile_export profile_import data_read data_write plugin_access
        app_lifecycle :
      Permission

-- The bit of a flag: its AccessCategory is `1 << bit`.
abbrev pub bit : Permission → ℕ
bit profile_read = 0
bit profile_write = 1
bit profile_delete = 1
bit data_read = 2
bit data_write = 3
bit settings_read = 4
bit settings_write = 5
bit container_read = 6
bit container_write = 7
bit app_lifecycle = 8
bit profile_export = 9
bit profile_import = 9
bit plugin_access = 10

-- `perms.testFlag(perm)`
abbrev pub test_flag : Permission → ℕ → Bool
test_flag perm perms = perms / 2 ^ bit perm % 2 == 1

-- `perms |= perm`
abbrev pub add_flag : Permission → ℕ → ℕ
add_flag perm perms = bit_or perms (2 ^ bit perm)

-- `if( perms.testFlag(perm) ) names << name;`
abbrev name_if : Permission → Text → ℕ → List Text → List Text
name_if perm name perms rest = if test_flag perm perms then name ∷ rest else rest

abbrev or_none : List Text → List Text
or_none [] = (b'N' ∷ b'o' ∷ b'n' ∷ b'e' ∷ []) ∷ []
or_none names = names

abbrev pub permission_names : ℕ → List Text
permission_names perms = or_none (
    name_if settings_read
      (b'S' ∷ b'e' ∷ b't' ∷ b't' ∷ b'i' ∷ b'n' ∷ b'g' ∷ b's' ∷ b'R' ∷ b'e' ∷ b'a' ∷ b'd' ∷ []) perms
      (name_if settings_write
        (b'S' ∷ b'e' ∷ b't' ∷ b't' ∷ b'i' ∷ b'n' ∷ b'g' ∷ b's' ∷ b'W' ∷ b'r' ∷ b'i' ∷ b't' ∷ b'e'
          ∷ [])
        perms
        (name_if container_read
          (b'C' ∷ b'o' ∷ b'n' ∷ b't' ∷ b'a' ∷ b'i' ∷ b'n' ∷ b'e' ∷ b'r' ∷ b'R' ∷ b'e' ∷ b'a' ∷ b'd'
            ∷ [])
          perms
          (name_if container_write
            (b'C' ∷ b'o' ∷ b'n' ∷ b't' ∷ b'a' ∷ b'i' ∷ b'n' ∷ b'e' ∷ b'r' ∷ b'W' ∷ b'r' ∷ b'i'
              ∷ b't' ∷ b'e' ∷ [])
            perms
            (name_if profile_read
              (b'P' ∷ b'r' ∷ b'o' ∷ b'f' ∷ b'i' ∷ b'l' ∷ b'e' ∷ b'R' ∷ b'e' ∷ b'a' ∷ b'd' ∷ [])
              perms
              (name_if profile_write
                (b'P' ∷ b'r' ∷ b'o' ∷ b'f' ∷ b'i' ∷ b'l' ∷ b'e' ∷ b'W' ∷ b'r' ∷ b'i' ∷ b't' ∷ b'e'
                  ∷ [])
                perms
                (name_if profile_delete
                  (b'P' ∷ b'r' ∷ b'o' ∷ b'f' ∷ b'i' ∷ b'l' ∷ b'e' ∷ b'D' ∷ b'e' ∷ b'l' ∷ b'e' ∷ b't'
                    ∷ b'e' ∷ [])
                  perms
                  (name_if profile_export
                    (b'P' ∷ b'r' ∷ b'o' ∷ b'f' ∷ b'i' ∷ b'l' ∷ b'e' ∷ b'E' ∷ b'x' ∷ b'p' ∷ b'o'
                      ∷ b'r' ∷ b't' ∷ [])
                    perms
                    (name_if profile_import
                      (b'P' ∷ b'r' ∷ b'o' ∷ b'f' ∷ b'i' ∷ b'l' ∷ b'e' ∷ b'I' ∷ b'm' ∷ b'p' ∷ b'o'
                        ∷ b'r' ∷ b't' ∷ [])
                      perms
                      (name_if data_read
                        (b'D' ∷ b'a' ∷ b't' ∷ b'a' ∷ b'R' ∷ b'e' ∷ b'a' ∷ b'd' ∷ []) perms
                        (name_if data_write
                          (b'D' ∷ b'a' ∷ b't' ∷ b'a' ∷ b'W' ∷ b'r' ∷ b'i' ∷ b't' ∷ b'e' ∷ []) perms
                          (name_if plugin_access
                            (b'P' ∷ b'l' ∷ b'u' ∷ b'g' ∷ b'i' ∷ b'n' ∷ b'A' ∷ b'c' ∷ b'c' ∷ b'e'
                              ∷ b's' ∷ b's' ∷ [])
                            perms
                            (name_if app_lifecycle
                              (b'A' ∷ b'p' ∷ b'p' ∷ b'L' ∷ b'i' ∷ b'f' ∷ b'e' ∷ b'c' ∷ b'y' ∷ b'c'
                                ∷ b'l' ∷ b'e' ∷ [])
                              perms ([]))))))))))))))

abbrev imply : Permission → Permission → ℕ → ℕ
imply write read perms = if test_flag write perms then add_flag read perms else perms

unfoldable pub expand_implied_permissions : ℕ → ℕ
expand_implied_permissions perms =
    imply data_write data_read
      (imply container_write container_read (imply settings_write settings_read perms))

test-bit_or : (k m b : ℕ) → bit_or m b / 2 ^ k % 2 ≡ max (m / 2 ^ k % 2) (b / 2 ^ k % 2)
test-bit_or k m b = rw (bit_or-div_pow k m b) (omega (arith, bit_or_step (m / 2 ^ k) (b / 2 ^ k)))

abbrev one_if : Bool → ℕ
one_if true = 1
one_if false = 0

same_test : (j k : ℕ) → one_if (j == k) ≡ one_if (suc j == suc k)
same_test j k = ground arith

zero-div_pow : (k : ℕ) → 0 / 2 ^ k % 2 ≡ 0
zero-div_pow zero = refl
zero-div_pow (suc k) = rw (div-pow_suc k 0) (zero-div_pow k)

pow-bit : (k j : ℕ) → 2 ^ j / 2 ^ k % 2 ≡ one_if (j == k)
pow-bit zero zero = refl
pow-bit zero (suc j) = ground arith
pow-bit (suc k) zero =
    let never : 0 ≡ one_if (0 == suc k) = ground arith in
    rw (div-pow_suc k 1) (zero-div_pow k ∙ never)
pow-bit (suc k) (suc j) =
    let half : 2 ^ suc j / 2 ≡ 2 ^ j = omega arith in
    rw (div-pow_suc k (2 ^ suc j), half) (pow-bit k j ∙ same_test j k)

max_test : (a j k : ℕ) → a < 2 → (max a (one_if (j == k)) == 1) ≡ (a == 1 || j == k)
max_test a j k h = elim (Bool-cases (j == k)) [
  | inl same ↦ rw same (ground arith)
  | inr differs ↦ rw differs (ground arith)
]

test_flag-add_flag :
    (p q : Permission) (m : ℕ) → test_flag p (add_flag q m) ≡ (test_flag p m || bit q == bit p)
test_flag-add_flag p q m =
    ap (λ r. r == 1)
      (test-bit_or (bit p) m (2 ^ bit q) ∙ ap (max (m / 2 ^ bit p % 2)) (pow-bit (bit p) (bit q)))
    ∙ max_test (m / 2 ^ bit p % 2) (bit q) (bit p) (omega arith)

-- What a permission is implied by.
abbrev pub implied : Permission → ℕ → Bool
implied settings_read perms = test_flag settings_write perms
implied container_read perms = test_flag container_write perms
implied data_read perms = test_flag data_write perms
implied _ perms = false

and_true : (a b : Bool) → (a || b) ≡ (a || (b && true))
and_true true b = refl
and_true false true = refl
and_true false false = refl

and_false : (a b : Bool) → a ≡ (a || (b && false))
and_false true b = refl
and_false false true = refl
and_false false false = refl

test_flag-imply :
    (p w r : Permission) (m : ℕ)
    → test_flag p (imply w r m) ≡ (test_flag p m || (bit r == bit p && test_flag w m))
test_flag-imply p w r m = elim (Bool-cases (test_flag w m)) [
  | inl set ↦ rw set (test_flag-add_flag p r m ∙ and_true (test_flag p m) (bit r == bit p))
  | inr clear ↦ rw clear (and_false (test_flag p m) (bit r == bit p))
]

or_false : (b : Bool) → (b || false) ≡ b
or_false true = refl
or_false false = refl

-- The three steps of the expansion, for any permission.
test_flag-expand :
    (p : Permission) (m : ℕ)
    → test_flag p (expand_implied_permissions m) ≡ (
        ((test_flag p m || (4 == bit p && test_flag settings_write m))
          || (6 == bit p && test_flag container_write m))
        || (2 == bit p && test_flag data_write m))
unfolding expand_implied_permissions
test_flag-expand p m =
    let m1 = imply settings_write settings_read m in
    let m2 = imply container_write container_read m1 in
    let container : test_flag container_write m1 ≡ test_flag container_write m =
      test_flag-imply container_write settings_write settings_read m
      ∙ or_false (test_flag container_write m) in
    let data_before : test_flag data_write m2 ≡ test_flag data_write m1 =
      test_flag-imply data_write container_write container_read m1
      ∙ or_false (test_flag data_write m1) in
    let data_first : test_flag data_write m1 ≡ test_flag data_write m =
      test_flag-imply data_write settings_write settings_read m
      ∙ or_false (test_flag data_write m) in
    test_flag-imply p data_write data_read m2
    ∙ ap₂ (λ a b. a || (2 == bit p && b))
        (test_flag-imply p container_write container_read m1
          ∙ ap₂ (λ a b. a || (6 == bit p && b)) (test_flag-imply p settings_write settings_read m)
              container)
        (data_before ∙ data_first)

or_falses : (b : Bool) → (((b || false) || false) || false) ≡ (b || false)
or_falses true = refl
or_falses false = refl

or_first : (b c : Bool) → (((b || c) || false) || false) ≡ (b || c)
or_first true c = refl
or_first false true = refl
or_first false false = refl

or_second : (b c : Bool) → (((b || false) || c) || false) ≡ (b || c)
or_second true c = refl
or_second false true = refl
or_second false false = refl

or_third : (b c : Bool) → (((b || false) || false) || c) ≡ (b || c)
or_third true c = refl
or_third false c = refl

-- After the expansion a permission is in force exactly if it was granted, or if it is the read
-- permission of settings, containers or data and the write permission beside it was granted.
pub expand_implied_permissions_lem :
    (p : Permission) (perms : ℕ)
    → test_flag p (expand_implied_permissions perms) ≡ (test_flag p perms || implied p perms)
expand_implied_permissions_lem settings_read perms =
    test_flag-expand settings_read perms
    ∙ or_first (test_flag settings_read perms) (test_flag settings_write perms)
expand_implied_permissions_lem settings_write perms =
    test_flag-expand settings_write perms ∙ or_falses (test_flag settings_write perms)
expand_implied_permissions_lem container_read perms =
    test_flag-expand container_read perms
    ∙ or_second (test_flag container_read perms) (test_flag container_write perms)
expand_implied_permissions_lem container_write perms =
    test_flag-expand container_write perms ∙ or_falses (test_flag container_write perms)
expand_implied_permissions_lem profile_read perms =
    test_flag-expand profile_read perms ∙ or_falses (test_flag profile_read perms)
expand_implied_permissions_lem profile_write perms =
    test_flag-expand profile_write perms ∙ or_falses (test_flag profile_write perms)
expand_implied_permissions_lem profile_delete perms =
    test_flag-expand profile_delete perms ∙ or_falses (test_flag profile_delete perms)
expand_implied_permissions_lem profile_export perms =
    test_flag-expand profile_export perms ∙ or_falses (test_flag profile_export perms)
expand_implied_permissions_lem profile_import perms =
    test_flag-expand profile_import perms ∙ or_falses (test_flag profile_import perms)
expand_implied_permissions_lem data_read perms =
    test_flag-expand data_read perms
    ∙ or_third (test_flag data_read perms) (test_flag data_write perms)
expand_implied_permissions_lem data_write perms =
    test_flag-expand data_write perms ∙ or_falses (test_flag data_write perms)
expand_implied_permissions_lem plugin_access perms =
    test_flag-expand plugin_access perms ∙ or_falses (test_flag plugin_access perms)
expand_implied_permissions_lem app_lifecycle perms =
    test_flag-expand app_lifecycle perms ∙ or_falses (test_flag app_lifecycle perms)
