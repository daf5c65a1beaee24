-- ===== src/Store/Order.antt =====
-- What reaches the server, and in which order.
use mathlib.Core.Path.{subst}
use mathlib.Core.List.{append-nil, append_assoc, map-append}
use elephant_shrew.Prelude.{
  ℕ, ◌≡◌, refl, sym, ap, ◌∙◌, Bool, true, false, List, [], ◌∷◌, ◌++◌, map, some, inl, inr, arith,
  Sublist, nil, skip, keep, Sublist-append,
}
use elephant_shrew.Config.{Text}
use elephant_shrew.Store.{
  PacketInfo, PacketStore, complete_write, xadd, begin_store, post_packet, run_posted, finish_write,
  stop_accepting,
}
use elephant_shrew.Store.Steps.{
  Ran, made, begun, posted, unposted, handled, answered, stopped, begin_store_cases, none-some,
  given,
}

-- Of the packets posted, those handled come first, and the commands sent are those of some of them.
pub record IsOrdered (stream_key : Text) (h : List PacketInfo) (s : PacketStore) : Type 0 where
  pub done : List PacketInfo
  pub split : h ≡ done ++ s.posted
  pub sent : Sublist s.requests (map (xadd stream_key) done)

begin_store-kept :
    (max : ℕ) (p : PacketInfo) (s : PacketStore) {taken : Bool} {s' : PacketStore}
    → begin_store max p s ≡ some (taken, s')
    → (s'.posted ≡ s.posted) × (s'.requests ≡ s.requests)
begin_store-kept max p s {taken} {s'} e = elim (begin_store_cases max p s) [
  | inl w ↦ absurd (none-some (sym w ∙ e))
  | inr (inl (f, w)) ↦ Kept-subst (given (sym w ∙ e)) (refl, refl)
  | inr (inr (f, w)) ↦ Kept-subst (given (sym w ∙ e)) (refl, refl)
]
  where
    Kept-subst :
        {u : PacketStore}
        → u ≡ s'
        → (u.posted ≡ s.posted) × (u.requests ≡ s.requests)
        → (s'.posted ≡ s.posted) × (s'.requests ≡ s.requests)
    Kept-subst e k =
        subst (λ (u : PacketStore). (u.posted ≡ s.posted) × (u.requests ≡ s.requests)) e k

module _ {stream_key : Text} {h : List PacketInfo} where
  -- a state with the same queue and the same commands
  unmoved :
      (s t : PacketStore)
      → t.posted ≡ s.posted
      → t.requests ≡ s.requests
      → IsOrdered stream_key h s
      → IsOrdered stream_key h t
  unmoved s t p r o = record {
    done = o.done;
    split = o.split ∙ ap (λ l. o.done ++ l) (sym p);
    sent =
        subst (λ (l : List (List Text)). Sublist l (map (xadd stream_key) o.done)) (sym r) o.sent;
  }

  completed :
      (s : PacketStore) → IsOrdered stream_key h s → IsOrdered stream_key h (complete_write s)
  unfolding complete_write
  completed s o = unmoved s (complete_write s) (ground arith) (ground arith) o

  begun-IsOrdered :
      (max : ℕ) (s : PacketStore) {s' : PacketStore} (p : PacketInfo) {taken : Bool}
      → begin_store max p s ≡ some (taken, s')
      → IsOrdered stream_key h s
      → IsOrdered stream_key h s'
  begun-IsOrdered max s {s'} p e o =
      let (same, kept) = begin_store-kept max p s e in unmoved s s' same kept o

  -- the first packet of the queue is handled, and its command sent or not
  taken_first :
      (s t : PacketStore) (p : PacketInfo) (others : List PacketInfo) (extra : List (List Text))
      → s.posted ≡ p ∷ others
      → t.posted ≡ others
      → t.requests ≡ s.requests ++ extra
      → Sublist extra (xadd stream_key p ∷ [])
      → IsOrdered stream_key h s
      → IsOrdered stream_key h t
  taken_first s t p others extra e q r x o = record {
    done = o.done ++ p ∷ [];
    split =
        o.split
        ∙ (ap (λ l. o.done ++ l) (e ∙ ap (λ l. p ∷ l) (sym q))
            ∙ sym (append_assoc o.done (p ∷ []) t.posted));
    sent =
        subst (λ (l : List (List Text)). Sublist l (map (xadd stream_key) (o.done ++ p ∷ [])))
          (sym r)
          (subst (λ (l : List (List Text)). Sublist (s.requests ++ extra) l)
            (sym (map-append (xadd stream_key) o.done (p ∷ []))) (Sublist-append o.sent x));
  }

  handled-IsOrdered :
      {s : PacketStore} (throws : Bool) (p : PacketInfo) (others : List PacketInfo)
      → s.posted ≡ p ∷ others
      → IsOrdered stream_key h s
      → IsOrdered stream_key h (run_posted throws stream_key p others s)
  unfolding run_posted
  handled-IsOrdered {s} true p others e o =
      completed (record s { posted = others })
        (taken_first s (record s { posted = others }) p others [] e refl
          (sym (append-nil s.requests)) (skip nil) o)
  handled-IsOrdered {s} false p others e o =
      taken_first s (run_posted false stream_key p others s) p others (xadd stream_key p ∷ []) e
        refl refl (keep nil) o

  posted-IsOrdered :
      {s : PacketStore} (p : PacketInfo) (others : List PacketInfo)
      → IsOrdered stream_key h s
      → IsOrdered stream_key (h ++ p ∷ []) (post_packet false p others s)
  unfolding post_packet
  posted-IsOrdered {s} p others o = record {
    done = o.done;
    split = ap (λ l. l ++ p ∷ []) o.split ∙ append_assoc o.done s.posted (p ∷ []);
    sent = o.sent;
  }

  unposted-IsOrdered :
      {s : PacketStore} (p : PacketInfo) (others : List PacketInfo)
      → IsOrdered stream_key h s
      → IsOrdered stream_key h (post_packet true p others s)
  unfolding post_packet
  unposted-IsOrdered {s} p others o =
      completed (record s { reserved = others })
        (unmoved s (record s { reserved = others }) refl refl o)

  answered-IsOrdered :
      {s : PacketStore} (others : List PacketInfo)
      → IsOrdered stream_key h s
      → IsOrdered stream_key h (finish_write others s)
  unfolding finish_write
  answered-IsOrdered {s} others o =
      completed (record s { executing = others })
        (unmoved s (record s { executing = others }) refl refl o)

  stopped-IsOrdered :
      {s : PacketStore} → IsOrdered stream_key h s → IsOrdered stream_key h (stop_accepting s)
  unfolding stop_accepting
  stopped-IsOrdered {s} o = unmoved s (stop_accepting s) refl refl o

-- In every life of the store the packets posted are handled in the order of their posts, those not
-- handled are the queue, and the XADD commands sent are those of handled packets in the same order.
pub Ran-IsOrdered :
    {max : ℕ} {stream_key : Text} {h : List PacketInfo} {s : PacketStore}
    → Ran max stream_key h s
    → IsOrdered stream_key h s
Ran-IsOrdered {stream_key = k} (made e) =
    subst (IsOrdered k []) (sym e) (record { done = []; split = refl; sent = nil })
Ran-IsOrdered {max} (begun {s = s} r p taken e) = begun-IsOrdered max s p e (Ran-IsOrdered r)
Ran-IsOrdered (posted r p before after e) = posted-IsOrdered p (before ++ after) (Ran-IsOrdered r)
Ran-IsOrdered (unposted r p before after e) =
    unposted-IsOrdered p (before ++ after) (Ran-IsOrdered r)
Ran-IsOrdered (handled r throws p others e) = handled-IsOrdered throws p others e (Ran-IsOrdered r)
Ran-IsOrdered (answered r p before after e) = answered-IsOrdered (before ++ after) (Ran-IsOrdered r)
Ran-IsOrdered (stopped r) = stopped-IsOrdered (Ran-IsOrdered r)
