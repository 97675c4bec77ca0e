-- ===== src/Transformation/Tally.antt =====
-- How much a plugin's output comes to, on a connection that takes everything.
use atscppapi.Common.{
  ◌<◌, subst, ℕ, ◌+◌, Bytes, ◌≡◌, refl, sym, ap, ◌∙◌, true, false, ◌++◌, List, [], ◌∷◌, ◌⊎◌, inl,
  inr, length, append_assoc, length-append, arith,
}
use atscppapi.Transformation.{
  TransformApi, Transformation, new, ClientCall, produces, sets_output_complete, open_output,
  write_data, produce, set_output_complete, client_call, client_calls,
}

-- The bytes that a list of calls produces.
unfoldable pub output_of : List ClientCall → Bytes
output_of [] = []
output_of (produces d ∷ cs) = d ++ output_of cs
output_of (sets_output_complete ∷ cs) = output_of cs

pub output_of-append :
    (cs ds : List ClientCall) → output_of (cs ++ ds) ≡ output_of cs ++ output_of ds
unfolding output_of
output_of-append [] ds = refl
output_of-append (produces d ∷ cs) ds =
    ap (λ o. d ++ o) (output_of-append cs ds) ∙ sym (append_assoc d (output_of cs) (output_of ds))
output_of-append (sets_output_complete ∷ cs) ds = output_of-append cs ds

-- Documented behaviour of Traffic Server while the connection lives: the output can be opened, and a
-- buffer takes all that is written.
pub record TakesAll (ts : TransformApi) : Type 0 where
  pub alive : (w : ts.World) → ts.conn_closed w ≡ false
  pub connected : (w : ts.World) → ts.output_vconn w ≡ true
  pub accepted : (w : ts.World) (n : ℕ) → (ts.vconn_write w n).0 ≡ true
  pub taken : (w : ts.World) (d : Bytes) → (ts.buffer_write w d).0 ≡ length d

zero_or_pos : (n : ℕ) → (n ≡ 0) ⊎ (0 < n)
zero_or_pos n = ground arith

module _ (ts : TransformApi) (l : TakesAll ts) where
  -- The counter is this many, and without an output nothing was counted.
  record Tallies (n : ℕ) (s : Transformation ts) : Type 0 where
    total : s.bytes_written ≡ n
    opened : (s.output_vio ≡ true) ⊎ (n ≡ 0)

  open_output_lem :
      (s : Transformation ts)
      → ((open_output ts s).output_vio ≡ true)
        × ((open_output ts s).bytes_written ≡ s.bytes_written)
  unfolding open_output
  open_output_lem s = (grind (arith, l.accepted, l.connected), ground arith)

  write_data_lem :
      (d : Bytes) (s : Transformation ts)
      → ((write_data ts d s).1.output_vio ≡ s.output_vio)
        × ((write_data ts d s).1.bytes_written ≡ s.bytes_written + length d)
  unfolding write_data
  write_data_lem d s = (refl, omega (arith, l.taken s.world d))

  produce-nil : (d : Bytes) (s : Transformation ts) → length d ≡ 0 → (produce ts d s).1 ≡ s
  unfolding produce
  produce-nil d s h = ground arith

  produce-some :
      (d : Bytes) (s : Transformation ts)
      → 0 < length d
      → (open_output ts s).output_vio ≡ true
      → (produce ts d s).1 ≡ (write_data ts d (open_output ts s)).1
  unfolding produce
  produce-some d s h e = ground arith

  produce-Tallies :
      (n : ℕ) (d : Bytes) (s : Transformation ts)
      → Tallies n s
      → Tallies (n + length d) (produce ts d s).1
  produce-Tallies n d s h = elim (zero_or_pos (length d)) [
    | inl nothing ↦
        let same = produce-nil d s nothing in
        subst (Tallies (n + length d)) (sym same) (record {
          total = omega (arith, h.total, nothing);
          opened = subst (λ m. (s.output_vio ≡ true) ⊎ (m ≡ 0)) (omega (arith, nothing)) h.opened;
        })
    | inr something ↦
        let o = open_output_lem s in
        let w = write_data_lem d (open_output ts s) in
        subst (Tallies (n + length d)) (sym (produce-some d s something o.0))
          (record { total = omega (arith, w.1, o.1, h.total); opened = inl (w.0 ∙ o.0) })
  ]

  complete-Tallies :
      (n : ℕ) (s : Transformation ts) → Tallies n s → Tallies n (set_output_complete ts s).1
  unfolding set_output_complete
  complete-Tallies n s h = record {
    total = ground (arith, h.total);
    opened = elim h.opened [ inl o ↦ inl (ground arith) | inr z ↦ inr z ];
  }

  client_calls-Tallies :
      (cs : List ClientCall) (n : ℕ) (s : Transformation ts)
      → Tallies n s
      → Tallies (n + length (output_of cs)) (client_calls ts cs s)
  unfolding client_calls client_call output_of
  client_calls-Tallies [] n s h = record {
    total = omega (arith, h.total);
    opened = subst (λ m. (s.output_vio ≡ true) ⊎ (m ≡ 0)) (omega arith) h.opened;
  }
  client_calls-Tallies (produces d ∷ cs) n s h =
      subst (λ m. Tallies m (client_calls ts cs (produce ts d s).1))
        (omega (arith, length-append {0} d (output_of cs)))
        (client_calls-Tallies cs (n + length d) (produce ts d s).1 (produce-Tallies n d s h))
  client_calls-Tallies (sets_output_complete ∷ cs) n s h =
      client_calls-Tallies cs n (set_output_complete ts s).1 (complete-Tallies n s h)

  completed-Tallies :
      (n : ℕ) (s : Transformation ts) → Tallies n s → (set_output_complete ts s).0 ≡ n
  unfolding set_output_complete
  completed-Tallies n s h = elim h.opened [
    | inl o ↦ ground (arith, h.total, o)
    | inr z ↦ ground (arith, h.total, z)
  ]

  -- While the connection lives and takes everything, `setOutputComplete` returns the number of bytes
  -- in all that the plugin's calls produced.
  pub output_of-set_output_complete :
      (cs : List ClientCall) (w : ts.World)
      → (set_output_complete ts (client_calls ts cs (new ts w))).0 ≡ length (output_of cs)
  unfolding new
  output_of-set_output_complete cs w =
      completed-Tallies (length (output_of cs)) (client_calls ts cs (new ts w)) (
        subst (λ m. Tallies m (client_calls ts cs (new ts w))) (omega arith)
          (client_calls-Tallies cs 0 (new ts w) (record { total = refl; opened = inr refl })))
