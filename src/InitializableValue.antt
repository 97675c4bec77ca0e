-- ===== src/InitializableValue.antt =====
-- src/include/InitializableValue.h: a value with a mark that says whether it was filled in. The
-- global `transaction_data_caching_enabled` is the argument `caching`; with it off no value counts
-- as filled in.
use atscppapi.Common.{Bool, true, false, ◌&&◌}

pub record InitializableValue {ℓ} (A : Type ℓ) : Type ℓ where
  pub value : A
  pub initialized : Bool

module _ {ℓ} {A : Type ℓ} where
  -- The default constructor, over the value that `Type()` gives.
  abbrev pub uninitialized : A → InitializableValue A
  uninitialized a = record { value = a; initialized = false }

  abbrev pub set_value : InitializableValue A → A → InitializableValue A
  set_value v a = record { value = a; initialized = true }

  abbrev pub is_initialized : Bool → InitializableValue A → Bool
  is_initialized caching v = caching && v.initialized

  -- A write through `getValueRef()`: the mark stays.
  abbrev pub set_ref : InitializableValue A → A → InitializableValue A
  set_ref v a = record v { value = a }

  abbrev pub set_initialized : InitializableValue A → Bool → InitializableValue A
  set_initialized v b = record v { initialized = b }
