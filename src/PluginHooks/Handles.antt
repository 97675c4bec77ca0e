-- ===== src/PluginHooks/Handles.antt =====
-- A plugin uses only what is alive, and leaves nothing behind.
use atscppapi.Common.{
  inr, inl, Option-cases, ℕ, Bool, true, false, not, ◌&&◌, ◌++◌, ◌==◌, Option, none, some, List, [],
  ◌∷◌, if◌then◌else◌, ◌≡◌, ◌≢◌, refl, sym, ap, ◌∙◌, arith,
}
use atscppapi.Hooks.{HookType, TransformationType}
use atscppapi.PluginHooks.{
  Request, cont_create, transform_create, cont_data_set, cont_destroy, hook_add, txn_hook_add,
  buffer_create, buffer_destroy, reader_alloc, reader_free, TransactionPlugin, TransformationPlugin,
  new_transaction_plugin, register_hook, delete_transaction_plugin, new_transformation_plugin,
  delete_transformation_plugin, cleanup_transformation,
}

-- What is alive; a reader comes with the buffer that it reads.
pub record Alive : Type 0 where
  pub conts : List ℕ
  pub buffers : List ℕ
  pub readers : List (ℕ × ℕ)

abbrev pub nothing : Alive
nothing = record { conts = []; buffers = []; readers = [] }

unfoldable pub member : ℕ → List ℕ → Bool
member x [] = false
member x (y ∷ ys) = if x == y then true else member x ys

unfoldable pub remove : ℕ → List ℕ → List ℕ
remove x [] = []
remove x (y ∷ ys) = let rest = remove x ys in if x == y then rest else y ∷ rest

-- Whether some reader is alive on the buffer, a reader is alive, and what is left when it is freed.
unfoldable pub is_read : ℕ → List (ℕ × ℕ) → Bool
is_read b [] = false
is_read b ((r, c) ∷ rs) = if b == c then true else is_read b rs

unfoldable pub is_reader : ℕ → List (ℕ × ℕ) → Bool
is_reader r [] = false
is_reader r ((q, c) ∷ rs) = if r == q then true else is_reader r rs

unfoldable pub free_reader : ℕ → List (ℕ × ℕ) → List (ℕ × ℕ)
free_reader r [] = []
free_reader r ((q, c) ∷ rs) = let rest = free_reader r rs in if r == q then rest else (q, c) ∷ rest

unfoldable when : Bool → Alive → Option Alive
when b a = if b then some a else none

-- One call, if what it uses is alive. A buffer may be destroyed only when no reader of it is left.
unfoldable pub serve : Request → Alive → Option Alive
unfolding member remove when is_read is_reader free_reader
serve (cont_create c handler) a = some (record a { conts = c ∷ a.conts })
serve (transform_create c handler) a = some (record a { conts = c ∷ a.conts })
serve (cont_data_set c d) a = when (member c a.conts) a
serve (cont_destroy c) a = when (member c a.conts) (record a { conts = remove c a.conts })
serve (hook_add h c) a = when (member c a.conts) a
serve (txn_hook_add txn h c) a = when (member c a.conts) a
serve (buffer_create b) a = some (record a { buffers = b ∷ a.buffers })
serve (buffer_destroy b) a =
    when (member b a.buffers && not (is_read b a.readers))
      (record a { buffers = remove b a.buffers })
serve (reader_alloc r b) a = when (member b a.buffers) (record a { readers = (r, b) ∷ a.readers })
serve (reader_free r) a =
    when (is_reader r a.readers) (record a { readers = free_reader r a.readers })

unfoldable pub serve_all : List Request → Alive → Option Alive
unfolding serve
serve_all [] a = some a
serve_all (r ∷ rs) a = elim (serve r a) [ none ↦ none | some a' ↦ serve_all rs a' ]

unfoldable pub register_all : List HookType → TransactionPlugin → List Request
unfolding register_hook
register_all [] p = []
register_all (t ∷ ts) p = register_hook t p ++ register_all ts p

next_of : List Request → Option Alive → Option Alive
next_of rs o = elim o [ none ↦ none | some a ↦ serve_all rs a ]

after_none :
    (rs : List Request) (o : Option Alive) (b : Alive) → o ≡ none → ¬ (next_of rs o ≡ some b)
unfolding next_of
after_none rs none b e h = ground arith
after_none rs (some a) b e h = ground arith

serve_all-append :
    (rs qs : List Request) (a b : Alive)
    → serve_all rs a ≡ some b
    → serve_all (rs ++ qs) a ≡ serve_all qs b
unfolding serve_all next_of
serve_all-append [] qs a b e = ap (next_of qs) e
serve_all-append (r ∷ rs) qs a b e = elim (Option-cases (serve r a)) [
  | inl refused ↦ absurd (after_none rs (serve r a) b refused e)
  | inr (c, served) ↦
      ap (next_of (rs ++ qs)) served ∙ serve_all-append rs qs c b (sym (ap (next_of rs) served) ∙ e)
]

-- Registering hooks changes nothing of what is alive.
serve_all-register_all :
    (ts : List HookType) (p : TransactionPlugin) (a : Alive)
    → member p.cont a.conts ≡ true
    → serve_all (register_all ts p) a ≡ some a
unfolding serve_all serve register_all register_hook when next_of
serve_all-register_all [] p a h = refl
serve_all-register_all (t ∷ ts) p a h =
    ap (λ b. next_of (register_all ts p) (if b then some a else none)) h
    ∙ serve_all-register_all ts p a h

member-head : (x : ℕ) (ys : List ℕ) → member x (x ∷ ys) ≡ true
unfolding member
member-head x ys = ground arith

member-second : (y x : ℕ) → member x (y ∷ x ∷ []) ≡ true
unfolding member
member-second y x = ground arith

remove-only : (x : ℕ) → remove x (x ∷ []) ≡ []
unfolding remove
remove-only x = ground arith

remove-first : (x y : ℕ) → x ≢ y → remove x (x ∷ y ∷ []) ≡ y ∷ []
unfolding remove
remove-first x y h = ground arith

abbrev with_cont : TransactionPlugin → Alive
with_cont p = record nothing { conts = p.cont ∷ [] }

made : (p : TransactionPlugin) → serve_all (new_transaction_plugin p) nothing ≡ some (with_cont p)
unfolding new_transaction_plugin serve_all serve when member
made p = ground arith

unmade :
    (p : TransactionPlugin) → serve_all (delete_transaction_plugin p) (with_cont p) ≡ some nothing
unfolding delete_transaction_plugin serve_all serve when member remove
unmade p = ground arith

abbrev with_all : TransformationPlugin → Alive
with_all p = record {
  conts = p.vconn ∷ p.base.cont ∷ [];
  buffers = p.output_buffer ∷ [];
  readers = (p.output_buffer_reader, p.output_buffer) ∷ [];
}

transformation_made :
    (type : TransformationType) (p : TransformationPlugin)
    → p.vconn ≢ p.base.cont
    → serve_all (new_transformation_plugin type p) nothing ≡ some (with_all p)
unfolding new_transformation_plugin new_transaction_plugin serve_all serve when member is_read
transformation_made type p other = ground arith

transformation_unmade :
    (p : TransformationPlugin)
    → p.vconn ≢ p.base.cont
    → serve_all (delete_transformation_plugin p) (with_all p) ≡ some nothing
unfolding delete_transformation_plugin delete_transaction_plugin cleanup_transformation serve_all
    serve when member remove is_read is_reader free_reader
transformation_unmade p other = ground arith

-- A transaction plugin that is made, registers any hooks and is deleted uses only continuations that
-- are alive, and its continuation is not left.
transaction_plugin_served :
    (ts : List HookType) (p : TransactionPlugin)
    → serve_all
        (new_transaction_plugin p ++ (register_all ts p ++ delete_transaction_plugin p))
        nothing
      ≡ some nothing
unfolding new_transaction_plugin delete_transaction_plugin
transaction_plugin_served ts p =
    serve_all-append (new_transaction_plugin p) (register_all ts p ++ delete_transaction_plugin p)
      nothing (with_cont p) (made p)
    ∙ serve_all-append (register_all ts p) (delete_transaction_plugin p) (with_cont p) (with_cont p)
        (serve_all-register_all ts p (with_cont p) (member-head p.cont []))
    ∙ unmade p

-- A transformation plugin whose connection is not the continuation of its base class and that is
-- made, registers any hooks and is deleted uses, in the calls of its constructor, `registerHook` and
-- destructor, only connections, continuations, buffers and readers that are alive, destroys its
-- buffer when no reader of it is left, and leaves none of these behind.
pub transformation_plugin_served :
    (ts : List HookType) (type : TransformationType) (p : TransformationPlugin)
    → p.vconn ≢ p.base.cont
    → serve_all
        (new_transformation_plugin type p
          ++ (register_all ts p.base ++ delete_transformation_plugin p))
        nothing
      ≡ some nothing
unfolding new_transformation_plugin delete_transformation_plugin
transformation_plugin_served ts type p other =
    serve_all-append (new_transformation_plugin type p)
      (register_all ts p.base ++ delete_transformation_plugin p) nothing (with_all p)
      (transformation_made type p other)
    ∙ serve_all-append (register_all ts p.base) (delete_transformation_plugin p) (with_all p)
        (with_all p)
        (serve_all-register_all ts p.base (with_all p) (member-second p.vconn p.base.cont))
    ∙ transformation_unmade p other
