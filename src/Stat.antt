-- ===== src/Stat.antt =====
-- src/Stat.cc: a statistic of Traffic Server. An `int64_t` is given as its bit pattern, a number
-- below 2 ^ 64.
use atscppapi.Common.{ℕ, Bytes, Bool, true, false, Option, none, some, if◌then◌else◌}

-- Stat::SyncType
pub data SyncType : Type 0 where
  sync_sum sync_count sync_avg sync_timeavg : SyncType

-- The statistics of Traffic Server (ts/ts.h).
pub record StatApi : Type 1 where
  pub World : Type 0
  -- TSStatCreate with the name, persistence and kind: `none` for TS_ERROR
  pub create : World → Bytes → Bool → SyncType → Option ℕ × World
  -- TSStatIntSet, TSStatIntGet, TSStatIntIncrement, TSStatIntDecrement
  pub int_set : World → ℕ → ℕ → World
  pub int_get : World → ℕ → ℕ
  pub int_increment : World → ℕ → ℕ → World
  pub int_decrement : World → ℕ → ℕ → World

-- Stat: `stat_id` is `none` for TS_ERROR.
pub record Stat (ts : StatApi) : Type 0 where
  pub stat_id : Option ℕ
  pub world : ts.World

module _ {ts : StatApi} where
  unfoldable pub new : ts.World → Stat ts
  new world = record { stat_id = none; world = world }

  unfoldable pub set : ℕ → Stat ts → Stat ts
  set value s = elim s.stat_id [
    | none ↦ s
    | some id ↦ record s { world = ts.int_set s.world id value }
  ]

  -- What follows the creation in `init`.
  unfoldable pub created : Bool → Stat ts → Bool × Stat ts
  unfolding set
  created persistent s = elim s.stat_id [
    | none ↦ (false, s)
    | some id ↦ (true, if persistent then s else set 0 s)
  ]

  unfoldable pub init : Bytes → SyncType → Bool → Stat ts → Bool × Stat ts
  unfolding created
  init name type persistent s =
      let (stat_id, world) = ts.create s.world name persistent type in
      created persistent (record { stat_id = stat_id; world = world })

  unfoldable pub get : Stat ts → ℕ
  get s = elim s.stat_id [ none ↦ 0 | some id ↦ ts.int_get s.world id ]

  unfoldable pub increment : ℕ → Stat ts → Stat ts
  increment amount s = elim s.stat_id [
    | none ↦ s
    | some id ↦ record s { world = ts.int_increment s.world id amount }
  ]

  unfoldable pub decrement : ℕ → Stat ts → Stat ts
  decrement amount s = elim s.stat_id [
    | none ↦ s
    | some id ↦ record s { world = ts.int_decrement s.world id amount }
  ]
