-- ===== src/Transformation/Input.antt =====
-- The input side: the end of the input is reported at most once, and every byte that Traffic Server
-- has for the plugin is handed to it once and in order.
use atscppapi.Common.{
  Bool, false, true, length, ◌≤◌, ltb, ℕ, ◌+◌, Bytes, ◌≡◌, refl, sym, ap, ◌∙◌, List, [], ◌∷◌, arith,
  if◌then◌else◌,
}
use atscppapi.Transformation.{
  vconn_write_complete, error_event, any_other_event, consume_from_reader, read_input, new,
  handle_transformation_plugin_read, handle_transformation_plugin_events, after_read, VconnEvent,
  TransformApi, Transformation, Client, ClientCall, produces, sets_output_complete, Callback,
  consumed, input_completed, open_output, write_data, produce, set_output_complete, client_call,
  client_calls, call_consume, dispatch_input_complete,
}

-- How often the end of the input was reported.
unfoldable pub completions : List Callback → ℕ
completions [] = 0
completions (consumed d ∷ cs) = completions cs
completions (input_completed ∷ cs) = 1 + completions cs

module _ (ts : TransformApi) where
  record SameInput (s t : Transformation ts) : Type 0 where
    callbacks : t.callbacks ≡ s.callbacks
    dispatched : t.input_complete_dispatched ≡ s.input_complete_dispatched

  client_call-SameInput :
      (c : ClientCall) (s : Transformation ts) → SameInput s (client_call ts c s)
  unfolding client_call produce open_output write_data set_output_complete
  client_call-SameInput (produces d) s = ground arith
  client_call-SameInput sets_output_complete s = ground arith

  client_calls-SameInput :
      (cs : List ClientCall) (s : Transformation ts) → SameInput s (client_calls ts cs s)
  unfolding client_calls
  client_calls-SameInput [] s = record { callbacks = refl; dispatched = refl }
  client_calls-SameInput (c ∷ cs) s =
      let one = client_call-SameInput c s in
      let rest = client_calls-SameInput cs (client_call ts c s) in
      record {
        callbacks = rest.callbacks ∙ one.callbacks;
        dispatched = rest.dispatched ∙ one.dispatched;
      }

module _ (ts : TransformApi) (client : Client) where
  -- The flag says whether the end was reported, which happened once at most.
  pub record IsOnce (s : Transformation ts) : Type 0 where
    pub once : completions s.callbacks ≡ (if s.input_complete_dispatched then 1 else 0)

  kept-IsOnce : {s t : Transformation ts} → SameInput ts s t → IsOnce s → IsOnce t
  kept-IsOnce {s} {t} k v = record {
    once = ap completions k.callbacks ∙ v.once ∙ ap (λ b. if b then 1 else 0) (sym k.dispatched);
  }

  both_branches :
      (b : Bool) {s t : Transformation ts} → IsOnce s → IsOnce t → IsOnce (if b then s else t)
  both_branches true v w = v
  both_branches false v w = w

  world-IsOnce : (s : Transformation ts) (w : ts.World) → IsOnce s → IsOnce (record s { world = w })
  world-IsOnce s w v = record { once = v.once }

  call_consume-IsOnce :
      (d : Bytes) (s : Transformation ts) → IsOnce s → IsOnce (call_consume ts client d s)
  unfolding call_consume completions
  call_consume-IsOnce d s v =
      kept-IsOnce
        (client_calls-SameInput ts (client.consume s.callbacks d)
          (record s { callbacks = consumed d ∷ s.callbacks }))
        (record { once = v.once })

  dispatch-IsOnce :
      (s : Transformation ts) → IsOnce s → IsOnce (dispatch_input_complete ts client s)
  unfolding dispatch_input_complete completions
  dispatch-IsOnce s v =
      let called = record s { callbacks = input_completed ∷ s.callbacks } in
      let k = client_calls-SameInput ts (client.handle_input_complete s.callbacks) called in
      let before = v.once in let after = ap completions k.callbacks in record { once = grind arith }

  read_input-IsOnce : (n : ℕ) (s : Transformation ts) → IsOnce s → IsOnce (read_input ts client n s)
  unfolding read_input
  read_input-IsOnce n s v =
      let w = ts.input_consume s.world n in
      let read = world-IsOnce s (ts.input_ndone_set w (ts.input_ndone w + n)) v in
      let in_data = consume_from_reader (ts.copied_avail s.world n) (ts.copied_blocks s.world n) in
      both_branches (ltb 0 (length in_data)) (call_consume-IsOnce in_data _ read) read

  after_read-IsOnce : (n : ℕ) (s : Transformation ts) → IsOnce s → IsOnce (after_read ts client n s)
  unfolding after_read
  after_read-IsOnce n s v =
      let w = ts.input_reenable s.world in
      both_branches (ltb 0 (ts.ntodo s.world))
        (both_branches (ltb 0 n)
          (world-IsOnce s (if ts.vio_cont s.world then ts.call_write_ready w else w) v) v)
        (dispatch-IsOnce s v)

  handle_read-IsOnce :
      (s : Transformation ts) → IsOnce s → IsOnce (handle_transformation_plugin_read ts client s)
  unfolding handle_transformation_plugin_read
  handle_read-IsOnce s v =
      let todo = ts.ntodo s.world in
      let avail = ts.reader_avail s.world in
      let n = if ltb avail todo then avail else todo in
      both_branches (ts.write_vio s.world)
        (both_branches (ltb 0 todo)
          (after_read-IsOnce n _ (both_branches (ltb 0 n) (read_input-IsOnce n s v) v))
          (dispatch-IsOnce s v))
        v

  handle_events-IsOnce :
      (e : VconnEvent) (s : Transformation ts)
      → IsOnce s
      → IsOnce (handle_transformation_plugin_events ts client e s)
  unfolding handle_transformation_plugin_events
  handle_events-IsOnce vconn_write_complete s v =
      both_branches (ts.conn_closed s.world) v (world-IsOnce s _ v)
  handle_events-IsOnce error_event s v =
      both_branches (ts.conn_closed s.world) v (world-IsOnce s _ v)
  handle_events-IsOnce (any_other_event n) s v =
      both_branches (ts.conn_closed s.world) v (handle_read-IsOnce s v)

  -- Traffic Server's events, each with the world that it finds.
  unfoldable pub run_events :
      List (VconnEvent × (ts.World → ts.World)) → Transformation ts → Transformation ts
  run_events [] s = s
  run_events ((e, change) ∷ es) s =
      run_events es
        (handle_transformation_plugin_events ts client e (record s { world = change s.world }))

  run_events-IsOnce :
      (es : List (VconnEvent × (ts.World → ts.World))) (s : Transformation ts)
      → IsOnce s
      → IsOnce (run_events es s)
  unfolding run_events
  run_events-IsOnce [] s v = v
  run_events-IsOnce ((e, change) ∷ es) s v =
      run_events-IsOnce es _ (handle_events-IsOnce e _ (world-IsOnce s (change s.world) v))

  -- Whatever events Traffic Server sends, whatever it does in between and whatever the plugin
  -- writes, the end of the input is reported to the plugin at most once.
  pub completions-run_events :
      (es : List (VconnEvent × (ts.World → ts.World))) (w : ts.World)
      → completions (run_events es (new ts w)).callbacks ≤ 1
  unfolding new completions
  completions-run_events es w =
      let v = (run_events-IsOnce es (new ts w) (record { once = refl })).once in grind arith
