-- ===== src/Mqtt/Interface/Hosts.antt =====
-- What the checks of connect, subscribe and unsubscribe let through.
use distributed_storage_with.Base.{
  suc, ◌<◌, ◌≡◌, refl, ap, Bool, true, false, not, List, [], ◌∷◌, map, All, if◌then◌else◌, nat_eq,
  length, Text, codes, text_Eq, arith,
}
use distributed_storage_with.Mqtt.Faults.{
  Fault, Result, ok, throw, invalid_argument, invalid_type, ◌>>◌,
}
use distributed_storage_with.Mqtt.Interface.{
  JsNumber, is_below_zero, Scalar, number, string, Setting, array, holds, Settings, setting,
  validate, connect_types, check, check_will, check_each, check_hosts, check_connect,
}

-- If the whole passes, each part does.
then_ok : (a b : Result (Unit {0})) → (a >> b) ≡ ok tt → (a ≡ ok tt) × (b ≡ ok tt)
then_ok (ok tt) b passes = (refl, passes)
then_ok (throw e) b passes = absurd (cc)

-- Names of hosts, and for each a port that is a number and not below zero
abbrev pub Paired : List Scalar → List Scalar → Type 0
Paired hosts ports =
    (names : List Text) × (numbers : List JsNumber) × (hosts ≡ map string names)
    × (ports ≡ map number numbers)
    × All (λ n. is_below_zero n ≡ false) numbers
    × (length names ≡ length numbers)

-- The pair that is looked at passes, and so do those behind it.
passed :
    (below : Bool) (others : Result (Unit {0}))
    → (if below then throw invalid_type else others) ≡ ok tt
    → (below ≡ false) × (others ≡ ok tt)
passed true others passes = absurd cc
passed false others passes = (refl, passes)

check_each-Paired :
    (hosts ports : List Scalar)
    → length hosts ≡ length ports
    → check_each hosts ports ≡ ok tt
    → Paired hosts ports
unfolding check_each
check_each-Paired [] [] same passes = ([], [], refl, refl, tt, refl)
check_each-Paired [] (p ∷ ports) same passes = absurd (omega arith)
check_each-Paired (string h ∷ hosts) (number p ∷ ports) same passes =
    let (not_below, others) = passed (is_below_zero p) (check_each hosts ports) passes in
    let (names, numbers, named, numbered, not_negative, equal) =
      check_each-Paired hosts ports (omega arith) others in
    (
      h ∷ names,
      p ∷ numbers,
      ap (λ xs. string h ∷ xs) named,
      ap (λ xs. number p ∷ xs) numbered,
      (not_below, not_negative),
      ap suc equal,
    )
check_each-Paired (h ∷ hosts) ports same passes = absurd (cc)

check_ok :
    (b : Bool) (failure : Result (Unit {0})) (e : Fault)
    → failure ≡ throw e
    → check b failure ≡ ok tt
    → b ≡ true
check_ok true failure e fails passes = refl
check_ok false failure e fails passes = absurd (cc)

-- Hosts that are given come with ports, as many of them, and there is one at least.
abbrev pub HostsPaired : Setting → Setting → Type 0
HostsPaired hosts ports =
    (xs : List Scalar) × (ys : List Scalar) × (hosts ≡ array xs)
    × (ports ≡ array ys)
    × (0 < length xs)
    × Paired xs ys

arrays-Paired :
    (xs ys : List Scalar)
    → check_hosts (array xs) (array ys) ≡ ok tt
    → HostsPaired (array xs) (array ys)
arrays-Paired xs ys passes =
    let several = not (nat_eq (length xs) 0) in
    let equal = nat_eq (length xs) (length ys) in
    let (first_two, pairs) =
      then_ok (check several (throw invalid_argument) >> check equal (throw invalid_argument))
        (check_each xs ys) passes in
    let (some_host, as_many) =
      then_ok (check several (throw invalid_argument)) (check equal (throw invalid_argument))
        first_two in
    let s = check_ok several (throw invalid_argument) invalid_argument refl some_host in
    let e = check_ok equal (throw invalid_argument) invalid_argument refl as_many in
    (xs, ys, refl, refl, ground arith, check_each-Paired xs ys (ground arith) pairs)

check_hosts-Paired :
    (hosts ports : Setting)
    → check_hosts hosts ports ≡ ok tt
    → holds hosts ≡ true
    → HostsPaired hosts ports
check_hosts-Paired (array xs) (array ys) passes given = arrays-Paired xs ys passes
check_hosts-Paired hosts ports passes given =
    absurd
      (ground (arith, check_ok (not (holds hosts)) (throw invalid_argument) invalid_argument refl))

-- Settings of connect that pass its checks and name hosts have a non-empty array of texts as hosts and
-- an array of as many numbers as ports, none of them below zero, so there is a port for every host that
-- is tried; such a port may be NaN, infinite or not whole.
pub check_connect-Paired :
    (s : Settings)
    → check_connect s ≡ ok tt
    → holds (setting (codes "hosts") s) ≡ true
    → HostsPaired (setting (codes "hosts") s) (setting (codes "ports") s)
unfolding check_connect
check_connect-Paired s passes given =
    let will = validate s connect_types >> check_will (setting (codes "willMessage") s) in
    let hosts = check_hosts (setting (codes "hosts") s) (setting (codes "ports") s) in
    check_hosts-Paired (setting (codes "hosts") s) (setting (codes "ports") s)
      (then_ok will hosts passes).1 given
