-- ===== src/Transformation/Stream.antt =====
-- The bytes of the input: what the plugin was handed and what is still to be read make up what has
-- arrived, in order.
use atscppapi.Common.{◌<◌}
use atscppapi.Common.{
  arith, suc, zero, ℕ, ◌≤◌, Bytes, ◌≡◌, refl, sym, ap, ◌∙◌, Bool, true, false, ◌++◌, some, List, [],
  ◌∷◌, length, take, drop, append_assoc, append-nil, if◌then◌else◌, ◌==◌, not, ◌&&◌,
}
use atscppapi.Transformation.{
  consume_from_reader, TransformApi, Transformation, ClientCall, produces, sets_output_complete,
  Callback, consumed, input_completed, open_output, write_data, produce, set_output_complete,
  client_call, client_calls, join_blocks,
}
use mathlib.Core.List.{flatten}

-- The bytes that the plugin was handed, in the order of the calls.
unfoldable pub handed : List Callback → Bytes
handed [] = []
handed (consumed d ∷ cs) = handed cs ++ d
handed (input_completed ∷ cs) = handed cs

join_blocks-flatten : (ds : List Bytes) (s : Bytes) → join_blocks ds s ≡ s ++ flatten ds
unfolding join_blocks flatten
join_blocks-flatten [] s = sym (append-nil s)
join_blocks-flatten (d ∷ ds) s = join_blocks-flatten ds (s ++ d) ∙ append_assoc s d (flatten ds)

-- A copy whose blocks make up the first `n` bytes is read as these bytes, when they are few enough.
pub consume_from_reader-take :
    (n : ℕ) (ds : List Bytes) (d : Bytes)
    → n < 2147483647
    → flatten ds ≡ take n d
    → consume_from_reader (some n) ds ≡ take n d
unfolding consume_from_reader
consume_from_reader-take zero ds d few e = refl
consume_from_reader-take (suc n) ds d few e = let j = join_blocks-flatten ds [] ∙ e in grind arith

-- From one world to the next, bytes were at most added at the end of the input.
pub record Supplies {W : Type 0} (pending arrived : W → Bytes) (w v : W) : Type 0 where
  pub added : Bytes
  pub pending_added : pending v ≡ pending w ++ added
  pub arrived_added : arrived v ≡ arrived w ++ added

-- Documented behaviour of Traffic Server's buffers: `pending` are the bytes that the reader of the
-- input holds, `arrived` all that ever came. Only the reader's consumption takes bytes away.
pub record ReadsInput (ts : TransformApi) (pending arrived : ts.World → Bytes) : Type 0 where
  pub available : (w : ts.World) → ts.reader_avail w ≡ length (pending w)
  pub copied : (w : ts.World) (n : ℕ) → n ≤ length (pending w) → ts.copied_avail w n ≡ some n
  pub blocks :
      (w : ts.World) (n : ℕ)
      → n ≤ length (pending w)
      → flatten (ts.copied_blocks w n) ≡ take n (pending w)
  pub pending-consume : (w : ts.World) (n : ℕ) → pending (ts.input_consume w n) ≡ drop n (pending w)
  pub arrived-consume : (w : ts.World) (n : ℕ) → arrived (ts.input_consume w n) ≡ arrived w
  pub at_vconn_write : (w : ts.World) (n : ℕ) → Supplies pending arrived w (ts.vconn_write w n).1
  pub at_buffer_write :
      (w : ts.World) (d : Bytes) → Supplies pending arrived w (ts.buffer_write w d).1
  pub at_output_reenable : (w : ts.World) → Supplies pending arrived w (ts.output_reenable w)
  pub at_output_ndone :
      (w : ts.World) (n : ℕ) → Supplies pending arrived w (ts.output_ndone_set w n)
  pub at_output_nbytes :
      (w : ts.World) (n : ℕ) → Supplies pending arrived w (ts.output_nbytes_set w n)
  pub at_input_ndone : (w : ts.World) (n : ℕ) → Supplies pending arrived w (ts.input_ndone_set w n)
  pub at_input_reenable : (w : ts.World) → Supplies pending arrived w (ts.input_reenable w)
  pub at_write_ready : (w : ts.World) → Supplies pending arrived w (ts.call_write_ready w)
  pub at_write_complete : (w : ts.World) → Supplies pending arrived w (ts.call_write_complete w)
  pub at_error : (w : ts.World) → Supplies pending arrived w (ts.call_error w)
  pub at_output_shutdown : (w : ts.World) → Supplies pending arrived w (ts.output_shutdown w)

module _ (ts : TransformApi) (pending arrived : ts.World → Bytes)
    (r : ReadsInput ts pending arrived) where
  -- Nothing was lost, repeated or moved.
  pub record HandsAll (s : Transformation ts) : Type 0 where
    pub all : handed s.callbacks ++ pending s.world ≡ arrived s.world

  pub record Follows (s t : Transformation ts) : Type 0 where
    pub callbacks : t.callbacks ≡ s.callbacks
    pub supplied : Supplies pending arrived s.world t.world

  -- The state that a method returns next to its result.
  record Leaves (s : Transformation ts) (x : ℕ × Transformation ts) : Type 0 where
    state : Follows s x.1

  pub idle : (w : ts.World) → Supplies pending arrived w w
  idle w = record {
    added = [];
    pending_added = sym (append-nil (pending w));
    arrived_added = sym (append-nil (arrived w));
  }

  pub then_after :
      {u v w : ts.World}
      → Supplies pending arrived u v
      → Supplies pending arrived v w
      → Supplies pending arrived u w
  then_after {u} {v} {w} x y = record {
    added = x.added ++ y.added;
    pending_added =
        y.pending_added
        ∙ ap (λ d. d ++ y.added) x.pending_added
        ∙ append_assoc (pending u) x.added y.added;
    arrived_added =
        y.arrived_added
        ∙ ap (λ d. d ++ y.added) x.arrived_added
        ∙ append_assoc (arrived u) x.added y.added;
  }

  pub either_world :
      (b : Bool) {u v w : ts.World}
      → Supplies pending arrived u v
      → Supplies pending arrived u w
      → Supplies pending arrived u (if b then v else w)
  either_world true x y = x
  either_world false x y = y

  either_result :
      (b : Bool) {s : Transformation ts} {x y : ℕ × Transformation ts}
      → Leaves s x
      → Leaves s y
      → Leaves s (if b then x else y)
  either_result true x y = x
  either_result false x y = y

  either_state :
      (b : Bool) {s t u : Transformation ts}
      → Follows s t
      → Follows s u
      → Follows s (if b then t else u)
  either_state true x y = x
  either_state false x y = y

  keeps : (s : Transformation ts) → Follows s s
  keeps s = record { callbacks = refl; supplied = idle s.world }

  chain : {s t u : Transformation ts} → Follows s t → Follows t u → Follows s u
  chain x y = record {
    callbacks = y.callbacks ∙ x.callbacks;
    supplied = then_after x.supplied y.supplied;
  }

  pub Follows-HandsAll : {s t : Transformation ts} → HandsAll s → Follows s t → HandsAll t
  Follows-HandsAll {s} {t} h f = record {
    all =
        ap (λ cs. handed cs ++ pending t.world) f.callbacks
        ∙ ap (λ d. handed s.callbacks ++ d) f.supplied.pending_added
        ∙ sym (append_assoc (handed s.callbacks) (pending s.world) f.supplied.added)
        ∙ ap (λ d. d ++ f.supplied.added) h.all
        ∙ sym f.supplied.arrived_added;
  }

  open_output-Follows : (s : Transformation ts) → Follows s (open_output ts s)
  unfolding open_output
  open_output-Follows s = either_state s.output_vio (keeps s) (
      either_state (ts.output_vconn s.world)
        (record { callbacks = refl; supplied = r.at_vconn_write s.world _ }) (keeps s))

  write_data-Follows : (d : Bytes) (s : Transformation ts) → Follows s (write_data ts d s).1
  unfolding write_data
  write_data-Follows d s = record {
    callbacks = refl;
    supplied = then_after (r.at_buffer_write s.world d) (
        either_world (ts.conn_closed (ts.buffer_write s.world d).1) (idle _)
          (r.at_output_reenable _));
  }

  produce-Leaves : (d : Bytes) (s : Transformation ts) → Leaves s (produce ts d s)
  unfolding produce
  produce-Leaves d s =
      let opened = open_output-Follows s in
      either_result (length d == 0) (record { state = keeps s })
        (either_result (open_output ts s).output_vio
          (record { state = chain opened (write_data-Follows d (open_output ts s)) })
          (record { state = opened }))

  set_output_complete-Leaves : (s : Transformation ts) → Leaves s (set_output_complete ts s)
  unfolding set_output_complete
  set_output_complete-Leaves s =
      let opened = r.at_vconn_write s.world 0 in
      let zeroed =
        then_after opened (then_after (r.at_output_ndone _ 0) (r.at_output_reenable _)) in
      let announced =
        then_after (r.at_output_nbytes s.world s.bytes_written) (r.at_output_reenable _) in
      either_result (not (ts.conn_closed s.world) && not s.output_vio)
        (record {
          state = record {
            callbacks = refl;
            supplied = either_world (ts.vconn_write s.world 0).0 zeroed opened;
          };
        })
        (either_result (not (ts.conn_closed s.world))
          (record { state = record { callbacks = refl; supplied = announced } })
          (record { state = keeps s }))

  client_call-Follows : (c : ClientCall) (s : Transformation ts) → Follows s (client_call ts c s)
  unfolding client_call
  client_call-Follows (produces d) s = (produce-Leaves d s).state
  client_call-Follows sets_output_complete s = (set_output_complete-Leaves s).state

  pub client_calls-Follows :
      (cs : List ClientCall) (s : Transformation ts) → Follows s (client_calls ts cs s)
  unfolding client_calls
  client_calls-Follows [] s = keeps s
  client_calls-Follows (c ∷ cs) s =
      chain (client_call-Follows c s) (client_calls-Follows cs (client_call ts c s))
