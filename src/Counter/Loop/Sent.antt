-- ===== src/Counter/Loop/Sent.antt =====
-- The batches that consumeLoop of internal/counter/consumer.go sends to the workers.
use zhiguang_go.Base.{
  ℕ, ◌<◌, ◌≡◌, refl, sym, subst, inl, inr, true, Option, none, some, List, [], ◌∷◌, if_false,
  if_true, Bool-cases, All, Bytes,
}
use zhiguang_go.Counter.Model.{CounterEvent}
use zhiguang_go.Counter.Batch.{Batch, Consumer, size, drop_batch}
use zhiguang_go.Counter.Batch.Contiguity.{IsWellFormed}
use zhiguang_go.Counter.Batch.Handled.{
  IsSound, HandsOver, nothing_handed, one_handed, drop-IsSound, handle_message-HandsOver,
}
use zhiguang_go.Counter.Loop.{
  is_expired, tidy, take_expired_batch, Round, look, fetch, round_of, send, consume_loop,
}
use zhiguang_go.Counter.Loop.Waiting.{tidy-IsSound, expired_filled, expired_batch}

-- A batch that is handed over as a flush expects it.
abbrev pub IsFlushable : Batch → Type 0
IsFlushable b = IsWellFormed b × (0 < size b)

module _ (interval now : ℕ) where
  expired-HandsOver :
      (p : ℕ) (c : Consumer) (o : Option Batch)
      → c.batches p ≡ o
      → is_expired interval now o ≡ true
      → IsSound c
      → HandsOver (o, drop_batch p c)
  expired-HandsOver p c none h e s = absurd (expired_batch interval now none e refl)
  expired-HandsOver p c (some b) h e s =
      one_handed b (drop_batch p c) (s.each p b h) (expired_filled interval now (some b) b e refl)
        (drop-IsSound p c s)

  take_expired_batch-HandsOver :
      (ps : List ℕ) (c : Consumer) → IsSound c → HandsOver (take_expired_batch interval now ps c)
  unfolding take_expired_batch
  take_expired_batch-HandsOver [] c s = nothing_handed c s
  take_expired_batch-HandsOver (p ∷ ps) c s =
      elim (Bool-cases (is_expired interval now (c.batches p))) [
        | inl e ↦
            subst HandsOver (sym (if_true _ _ e)) (expired-HandsOver p c (c.batches p) refl e s)
        | inr e ↦
            subst HandsOver (sym (if_false _ _ e))
              (take_expired_batch-HandsOver ps (tidy p c) (tidy-IsSound p c s))
      ]

module _ (parse : Bytes → Option CounterEvent) (interval : ℕ) where
  round_of-HandsOver :
      (r : Round) (c : Consumer) → IsSound c → HandsOver (round_of parse interval r c)
  unfolding round_of
  round_of-HandsOver (look now order) c s = take_expired_batch-HandsOver interval now order c s
  round_of-HandsOver (fetch now f msg) c s = handle_message-HandsOver parse now f msg c s

  send-IsFlushable :
      (o : Option Batch) (bs : List Batch)
      → ((b : Batch) → o ≡ some b → IsFlushable b)
      → All IsFlushable bs
      → All IsFlushable (send parse interval o bs)
  unfolding send
  send-IsFlushable none bs h hs = hs
  send-IsFlushable (some b) bs h hs = (h b refl, hs)

  -- Whatever messages come, however they decode, whenever the loop looks for batches whose time is over,
  -- and whatever fails: every batch that is sent to the workers is well formed and not empty, and the open
  -- batches stay well formed.
  pub consume_loop-IsFlushable :
      (rs : List Round) (c : Consumer)
      → IsSound c
      → All IsFlushable (consume_loop parse interval rs c).0
        × IsSound (consume_loop parse interval rs c).1
  unfolding consume_loop
  consume_loop-IsFlushable [] c s = (tt, s)
  consume_loop-IsFlushable (r ∷ rs) c s =
      let h = round_of-HandsOver r c s in
      let (sent, sound) = consume_loop-IsFlushable rs (round_of parse interval r c).1 h.rest in
      (send-IsFlushable (round_of parse interval r c).0 _ h.handed sent, sound)
