-- ===== src/ReturnCode.antt =====
-- The return codes of include/bake.h and their texts, `bake_err_str` of src/util.c.
use Prim.Native.String.{String}
use text.Mathlib.Text.{◌==◌ as str_eq}
use mochi_bake.Prelude.{
  ℕ, ◌<◌, ◌≡◌, refl, Bool, true, false, not, ◌||◌, ℤ, pos, negsuc, ◌==◌, if◌then◌else◌, arith,
  all_below, all_below_sound,
}

abbrev pub success : ℤ
success = pos 0

abbrev pub err_allocation : ℤ
err_allocation = negsuc 0

abbrev pub err_invalid_arg : ℤ
err_invalid_arg = negsuc 1

abbrev pub err_mercury : ℤ
err_mercury = negsuc 2

abbrev pub err_argobots : ℤ
err_argobots = negsuc 3

abbrev pub err_pmem : ℤ
err_pmem = negsuc 4

abbrev pub err_unknown_target : ℤ
err_unknown_target = negsuc 5

abbrev pub err_unknown_provider : ℤ
err_unknown_provider = negsuc 6

abbrev pub err_unknown_region : ℤ
err_unknown_region = negsuc 7

abbrev pub err_out_of_bounds : ℤ
err_out_of_bounds = negsuc 8

abbrev pub err_remi : ℤ
err_remi = negsuc 9

abbrev pub err_op_unsupported : ℤ
err_op_unsupported = negsuc 10

abbrev pub err_forbidden : ℤ
err_forbidden = negsuc 11

abbrev pub err_backend_type : ℤ
err_backend_type = negsuc 12

abbrev pub err_io : ℤ
err_io = negsuc 13

abbrev pub err_noent : ℤ
err_noent = negsuc 14

abbrev pub err_exist : ℤ
err_exist = negsuc 15

abbrev pub err_nomem : ℤ
err_nomem = negsuc 16

abbrev pub err_end : ℤ
err_end = negsuc 17

-- The cases of the `switch` below 0, by the magnitude less one.
unfoldable err_str_neg : ℕ → String
err_str_neg n =
    if n == 0
    then "Error allocating something"
    else if n == 1
    then "An argument is invalid"
    else if n == 2
    then "An error happened calling a Mercury function"
    else if n == 3
    then "An error happened calling an Argobots function"
    else if n == 4
    then "An error happened calling a PMDK function"
    else if n == 5
    then "Target refered to by id is not know to provider"
    else if n == 6
    then "Provider id could not be matched with a provider"
    else if n == 7
    then "Region id could not be found"
    else if n == 8
    then "Attempting an out of bound access"
    else if n == 9
    then "Error related to REMI"
    else if n == 10
    then "Operation not supported"
    else if n == 14
    then "Entry does not exist"
    else if n == 15
    then "Entry already exists"
    else if n == 16
    then "Out of memory"
    else "Unknown error"

unfoldable pub bake_err_str : ℤ → String
unfolding err_str_neg
bake_err_str (pos n) = if n == 0 then "Success" else "Unknown error"
bake_err_str (negsuc n) = err_str_neg n

same : Bool → Bool → Bool
same true b = b
same false b = not b

same→eq : (a b : Bool) → same a b ≡ true → a ≡ b
unfolding same
same→eq a b h = ground arith

err_str-table :
    all_below 17 (λ n.
      same (str_eq (bake_err_str (negsuc n)) "Unknown error") (n == 11 || (n == 12 || n == 13)))
    ≡ true
unfolding all_below bake_err_str same
err_str-table = refl

-- Of the error codes of bake.h, `bake_err_str` calls exactly these three unknown: the forbidden
-- operation (-12), the unknown backend type (-13) and the back-end I/O error (-14).
bake_err_str-unknown :
    (n : ℕ)
    → n < 17
    → str_eq (bake_err_str (negsuc n)) "Unknown error" ≡ (n == 11 || (n == 12 || n == 13))
bake_err_str-unknown n h = same→eq _ _ (all_below_sound 17 _ n err_str-table h)
