-- ===== src/Common/Keys.antt =====
-- Keys that Go compares by `==`: strings and numbers, each with a test that decides equality.
use Prim.Native.Nat.{ℕ}
use Prim.Native.String.{String}
use mathlib.Core.Path.{◌≡◌, refl}
use mathlib.Core.Logic.{◌↔◌}
use mathlib.Core.Bool.{Bool, true}
use text.Mathlib.Text.{◌==◌ as text_eq}
use text.Mathlib.TextEquality.{eq_iff}
use muxcore.Common.Tests.{◌==◌ as number_eq, ==_iff}

pub record Key {ℓ} (K : Type ℓ) : Type ℓ where
  pub test : K → K → Bool
  pub test_iff : (j k : K) → (test j k ≡ true) ↔ (j ≡ k)

instance abbrev pub string_key : Key String
string_key = record { test = text_eq; test_iff = eq_iff }

instance abbrev pub number_key : Key ℕ
number_key = record { test = number_eq; test_iff = ==_iff }

abbrev pub same {ℓ} : {K : Type ℓ} ⦃key : Key K⦄ → K → K → Bool
same ⦃key⦄ j k = key.test j k

pub same_refl {ℓ} : {K : Type ℓ} ⦃key : Key K⦄ (k : K) → same k k ≡ true
same_refl ⦃key⦄ k = (key.test_iff k k).1 refl
