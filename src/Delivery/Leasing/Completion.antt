-- ===== src/Delivery/Leasing/Completion.antt =====
-- When `lease_due` (iris/runtime/delivery/in_memory.py) has handed out fewer items than were asked
-- for, it has left none behind.
use iris_mind_v.Prelude.{
  ℕ, ◌+◌, timedelta, ◌≤◌, ◌<◌, ◌≡◌, refl, sym, ap, ◌∙◌, subst, ◌⊎◌, inl, inr, Text, text_eq, true,
  false, none, some, arith, List, [], ◌∷◌, ◌++◌, length, get_elem?, get_elem?-append,
  get_elem?-append_last, sorted, Bool-cases,
}
use iris_mind_v.Prelude.Dict.{
  Every, lookup, insert, values, lookup-insert_inv, lookup-insert_self, lookup-insert_ne,
}
use iris_mind_v.Prelude.Snapshot.{
  has_key, has_key-sorted, IsCurrent, sorted-values-IsCurrent, IsCurrent-insert, IsCurrent-skip,
}
use iris_mind_v.Delivery.Types.{Time, DeliveryStatus, DeliveryEnvelope}
use iris_mind_v.Delivery.Transitions.{lease_delivery, fail_exhausted_delivery, is_delivery_due}
use iris_mind_v.Delivery.Outbox.{Outbox, envelope_key_le, lease_due}
use iris_mind_v.Delivery.Valid.{Items, IsValid}
use iris_mind_v.Delivery.Leasing.{
  Progress, eligible, exhausted_item, leased_item, Visit, skipped, exhausted, leased,
  lease_loop_ind,
}

abbrev id_of : DeliveryEnvelope → Text
id_of e = e.delivery_id

module _ (provider : Text) (now : Time) (seconds : ℕ) where
  -- The eligible items of the store are still to be visited.
  abbrev Remaining : List DeliveryEnvelope → Items → Type 0
  Remaining rest items =
      Every (λ k e. eligible provider now e ≡ true → has_key id_of k rest ≡ true) items

  -- What the call did for an item that was `before`: nothing, or it leased the item and handed it
  -- out, or it failed the item for good.
  pub data Served (due : List DeliveryEnvelope) (before now_is : DeliveryEnvelope) : Type 0 where
    unchanged : now_is ≡ before → Served due before now_is
    taken :
        eligible provider now before ≡ true
        → before.attempts < before.max_attempts
        → now_is.status ≡ DeliveryStatus.leased
        → now_is.attempts ≡ before.attempts + 1
        → now_is.lease_expires_at ≡ some (now + timedelta seconds)
        → (i : ℕ) × (get_elem? due i ≡ some now_is)
        → Served due before now_is
    given_up :
        eligible provider now before ≡ true
        → before.max_attempts ≤ before.attempts
        → now_is.status ≡ DeliveryStatus.failed_permanent
        → now_is.lease_id ≡ none
        → Served due before now_is

  record Track (items : Items) (due : List DeliveryEnvelope) (id : Text) (before : DeliveryEnvelope)
      : Type 0 where
    now_is : DeliveryEnvelope
    stored : lookup id items ≡ some now_is
    served : Served due before now_is

  record Pending (s : Outbox) (rest : List DeliveryEnvelope) (acc : Progress) : Type 0 where
    current : IsCurrent id_of acc.0.items rest
    remaining : Remaining rest acc.0.items
    tracks : Every (Track acc.0.items acc.1) s.items

  Served-append :
      (due more : List DeliveryEnvelope) (before now_is : DeliveryEnvelope)
      → Served due before now_is
      → Served (due ++ more) before now_is
  Served-append due more before now_is (unchanged e) = unchanged e
  Served-append due more before now_is (given_up fit out st free) = given_up fit out st free
  Served-append due more before now_is (taken fit left st one ends (i, here)) =
      taken fit left st one ends (i, get_elem?-append due more i here)

  -- An item that is still eligible has not been served.
  eligible_unserved :
      1 ≤ seconds
      → (due : List DeliveryEnvelope) (before now_is : DeliveryEnvelope)
      → eligible provider now now_is ≡ true
      → Served due before now_is
      → now_is ≡ before
  unfolding is_delivery_due
  eligible_unserved lasts due before now_is fit (unchanged e) = e
  eligible_unserved lasts due before now_is fit (taken _ left st one ends here) = ground arith
  eligible_unserved lasts due before now_is fit (given_up _ out st free) = ground arith

  -- The tracks after the visit of `item` has stored `new`.
  tracks-insert :
      1 ≤ seconds
      → (s : Outbox) (items : Items) (item new : DeliveryEnvelope)
        (due due' : List DeliveryEnvelope)
      → eligible provider now item ≡ true
      → lookup item.delivery_id items ≡ some item
      → ((b n : DeliveryEnvelope) → Served due b n → Served due' b n)
      → Served due' item new
      → Every (Track items due) s.items
      → Every (Track (insert item.delivery_id new items) due') s.items
  tracks-insert lasts s items item new due due' fit here carry served tracks id before h =
      let old = tracks id before h in
      elim (text_eq.dec item.delivery_id id) [
        | no other ↦ record {
          now_is = old.now_is;
          stored = lookup-insert_ne item.delivery_id id new items other ∙ old.stored;
          served = carry before old.now_is old.served;
        }
        | yes same ↦
            let now_item : old.now_is ≡ item = cc in
            let again : eligible provider now old.now_is ≡ true =
              ap (eligible provider now) now_item ∙ fit in
            let was : item ≡ before =
              sym now_item ∙ eligible_unserved lasts due before old.now_is again old.served in
            record {
              now_is = new;
              stored =
                  subst (λ k. lookup k (insert item.delivery_id new items) ≡ some new) same
                    (lookup-insert_self item.delivery_id new items);
              served = subst (λ b. Served due' b new) was served;
            }
      ]

  Remaining-insert :
      (item new : DeliveryEnvelope) (rest : List DeliveryEnvelope) (items : Items)
      → eligible provider now new ≡ false
      → Remaining (item ∷ rest) items
      → Remaining rest (insert item.delivery_id new items)
  Remaining-insert item new rest items unfit h k e p fit =
      elim (lookup-insert_inv item.delivery_id k new items p) [
        | inl (_, same) ↦ cc (ap (eligible provider now) same)
        | inr (other, old) ↦ ground (arith, h k e old fit)
      ]

  Remaining-skip :
      (item : DeliveryEnvelope) (rest : List DeliveryEnvelope) (items : Items)
      → eligible provider now item ≡ false
      → lookup item.delivery_id items ≡ some item
      → Remaining (item ∷ rest) items
      → Remaining rest items
  Remaining-skip item rest items unfit current h k e p fit = elim (text_eq.dec item.delivery_id k) [
    | yes same ↦ let here : e ≡ item = cc in cc (ap (eligible provider now) here)
    | no other ↦ ground (arith, h k e p fit)
  ]

  module _ (lasts : 1 ≤ seconds) (s : Outbox) where
    Visit-Pending :
        (item : DeliveryEnvelope) (rest : List DeliveryEnvelope) (acc after : Progress)
        → Pending s (item ∷ rest) acc
        → Visit provider now seconds item acc after
        → Pending s rest after
    unfolding fail_exhausted_delivery lease_delivery is_delivery_due
    Visit-Pending item rest acc after t (skipped unfit e) = rw e (record {
      current = IsCurrent-skip id_of item rest t.current;
      remaining = Remaining-skip item rest acc.0.items unfit t.current.current.0 t.remaining;
      tracks = t.tracks;
    })
    Visit-Pending item rest (s', due) after t (exhausted fit out e) =
        let new = exhausted_item item now in
        rw e (record {
          current = IsCurrent-insert id_of item new s'.items rest t.current;
          remaining = Remaining-insert item new rest s'.items (ground arith) t.remaining;
          tracks =
              tracks-insert lasts s s'.items item new due due fit t.current.current.0 (λ b n h. h)
                (given_up fit out refl refl) t.tracks;
        })
    Visit-Pending item rest (s', due) after t (leased fit left e) =
        let new = leased_item item now seconds s' in
        rw e (record {
          current = IsCurrent-insert id_of item new s'.items rest t.current;
          remaining = Remaining-insert item new rest s'.items (ground arith) t.remaining;
          tracks =
              tracks-insert lasts s s'.items item new due (due ++ new ∷ []) fit t.current.current.0
                (Served-append due (new ∷ []))
                (taken fit left refl refl refl (length due, get_elem?-append_last due new))
                t.tracks;
        })

    start-Pending : IsValid s → Pending s (sorted envelope_key_le (values s.items)) (s, [])
    start-Pending w = record {
      current = sorted-values-IsCurrent id_of envelope_key_le s.items w.keyed;
      remaining = λ k e h _. has_key-sorted id_of envelope_key_le k e s.items w.keyed h;
      tracks = λ id e h. record { now_is = e; stored = h; served = unchanged refl };
    }

  -- In a valid outbox, with leases that last at least a microsecond, if lease_due hands out
  -- fewer items than were asked for, then every stored item is still stored and no longer due
  -- for the provider, and it is as it was, or it was due with attempts left, is among the items
  -- handed out and is leased for the given time with one more attempt counted, or it was due
  -- with no attempts left, has failed for good and holds no lease.
  pub lease_due_complete :
      (max_items : ℕ) (s : Outbox) (id : Text) (before : DeliveryEnvelope)
      → IsValid s
      → 1 ≤ seconds
      → length (lease_due provider now max_items seconds s).1 < max_items
      → lookup id s.items ≡ some before
      → let (s', due) = lease_due provider now max_items seconds s in
        (after : DeliveryEnvelope) × (lookup id s'.items ≡ some after)
        × (eligible provider now after ≡ false)
        × Served due before after
  unfolding lease_due
  lease_due_complete max_items s id before w lasts short found =
      let ends =
        lease_loop_ind provider now seconds max_items (Pending s)
          (λ item rest acc after t _ v. Visit-Pending lasts s item rest acc after t v)
          (sorted envelope_key_le (values s.items)) (s, []) (start-Pending lasts s w) in
      let track = ends.holds.tracks id before found in
      (
        track.now_is,
        track.stored,
        none_left ends.rest track.now_is ends.all_or_full
            (ends.holds.remaining id track.now_is track.stored),
        track.served,
      )
    where
      none_left :
          (rest : List DeliveryEnvelope) (e : DeliveryEnvelope)
          → (rest ≡ []) ⊎ (max_items ≤ length (lease_due provider now max_items seconds s).1)
          → (eligible provider now e ≡ true → has_key id_of id rest ≡ true)
          → eligible provider now e ≡ false
      none_left rest e (inr full) k = absurd (omega arith)
      none_left rest e (inl done) k = elim (Bool-cases (eligible provider now e)) [
        | inr unfit ↦ unfit
        | inl fit ↦ cc (ap (has_key id_of id) done, k fit)
      ]
