-- ===== src/Mime.antt =====
-- The header functions of Traffic Server (ts/ts.h) that the source calls, as a parameter. `World`
-- is the contents of Traffic Server's marshal buffers; a handle of these types is never null, a
-- nullable one is an `Option` of it.
use atscppapi.Common.{ℕ, Bytes, Option}

pub record MimeApi : Type 1 where
  pub World : Type 0
  pub MBuffer : Type 0
  pub MLoc : Type 0
  -- TSMimeHdrFieldsCount, TSMimeHdrFieldGet, TSMimeHdrFieldNext, TSMimeHdrFieldNextDup
  pub fields_count : World → MBuffer → MLoc → ℕ
  pub field_get : World → MBuffer → MLoc → ℕ → Option MLoc
  pub field_next : World → MBuffer → MLoc → MLoc → Option MLoc
  pub field_next_dup : World → MBuffer → MLoc → MLoc → Option MLoc
  -- TSMimeHdrFieldFind, TSMimeHdrFieldNameGet
  pub field_find : World → MBuffer → MLoc → Bytes → Option MLoc
  pub field_name_get : World → MBuffer → MLoc → MLoc → Option Bytes
  -- TSMimeHdrFieldValuesCount, TSMimeHdrFieldValueStringGet
  pub field_values_count : World → MBuffer → MLoc → MLoc → ℕ
  pub field_value_get : World → MBuffer → MLoc → MLoc → ℕ → Option Bytes
  -- TSMimeHdrFieldCreate, TSMimeHdrFieldNameSet, TSMimeHdrFieldAppend
  pub field_create : World → MBuffer → MLoc → World × MLoc
  pub field_name_set : World → MBuffer → MLoc → MLoc → Bytes → World
  pub field_append : World → MBuffer → MLoc → MLoc → World
  -- TSMimeHdrFieldValueStringInsert at index -1, behind the values that are there
  pub field_value_append : World → MBuffer → MLoc → MLoc → Bytes → World
  -- TSMimeHdrFieldDestroy, TSHandleMLocRelease
  pub field_destroy : World → MBuffer → MLoc → MLoc → World
  pub mloc_release : World → MBuffer → MLoc → MLoc → World
