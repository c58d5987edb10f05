-- ===== src/Delivery/Leasing/Evolution.antt =====
-- How one call of `lease_due` (iris/runtime/delivery/in_memory.py) changes the stored items, and
-- what holds of the items that it hands out.
use iris_mind_v.Prelude.{
  ℕ, ◌+◌, ◌≤◌, ◌<◌, ◌≡◌, refl, sym, ◌∙◌, ◌≢◌, subst, Text, text_eq, true, false, some, arith, List,
  [], ◌∷◌, All, All-map, All-append, sorted,
}
use iris_mind_v.Prelude.Dict.{Every, lookup, insert, values, lookup-insert_self, lookup-insert_ne}
use iris_mind_v.Prelude.Snapshot.{
  IsCurrent, sorted-values-IsCurrent, IsCurrent-insert, IsCurrent-skip,
}
use iris_mind_v.Delivery.Types.{Time, DeliveryEnvelope}
use iris_mind_v.Delivery.Transitions.{lease_delivery, fail_exhausted_delivery, is_delivery_due}
use iris_mind_v.Delivery.Outbox.{Outbox, lease_name, envelope_key_le, lease_due}
use iris_mind_v.Delivery.Lifecycle.{
  Evolves, stays, follows, Follows, lease_delivery-Follows, fail_exhausted_delivery-Follows,
}
use iris_mind_v.Delivery.Valid.{Items, IsValid}
use iris_mind_v.Delivery.Leasing.{
  Progress, eligible, exhausted_item, leased_item, Visit, skipped, exhausted, leased, Ends,
  lease_loop_ind,
}

abbrev id_of : DeliveryEnvelope → Text
id_of e = e.delivery_id

module _ (provider : Text) (now : Time) (seconds : ℕ) where
  -- Where the item that was `before` stands now: it moved along the lifecycle if the call was for
  -- it, and else it is unchanged.
  pub record Kept (items : Items) (id : Text) (before : DeliveryEnvelope) : Type 0 where
    pub now_is : DeliveryEnvelope
    pub stored : lookup id items ≡ some now_is
    pub evolves : Evolves before now_is
    pub untouched : eligible provider now before ≡ false → now_is ≡ before

  -- An item that is handed out: it was eligible, is leased under a new name until the lease's end,
  -- and is stored so.
  pub record Granted (s : Outbox) (items : Items) (e : DeliveryEnvelope) : Type 0 where
    pub before : DeliveryEnvelope
    pub was : lookup e.delivery_id s.items ≡ some before
    pub fit : eligible provider now before ≡ true
    pub spare : before.attempts < before.max_attempts
    pub number : ℕ
    pub newer : s.lease_counter < number
    pub is : e ≡ lease_delivery before (lease_name number) now seconds before.not_before
    pub stored : lookup e.delivery_id items ≡ some e

  record Trace (s : Outbox) (rest : List DeliveryEnvelope) (acc : Progress) : Type 0 where
    current : IsCurrent id_of acc.0.items rest
    original : All (λ v. lookup v.delivery_id s.items ≡ some v) rest
    kept : Every (Kept acc.0.items) s.items
    counter : s.lease_counter ≤ acc.0.lease_counter
    granted : All (Granted s acc.0.items) acc.1
    apart : All (λ d. All (λ v. d.delivery_id ≢ v.delivery_id) rest) acc.1

  Kept-insert :
      (s : Outbox) (items : Items) (item e : DeliveryEnvelope)
      → lookup item.delivery_id s.items ≡ some item
      → eligible provider now item ≡ true
      → Follows item e
      → Every (Kept items) s.items
      → Every (Kept (insert item.delivery_id e items)) s.items
  Kept-insert s items item e original fit f kept id before h =
      elim (text_eq.dec item.delivery_id id) [
        | yes same ↦
            let here : before ≡ item = cc in
            record {
              now_is = e;
              stored =
                  subst (λ k. lookup k (insert item.delivery_id e items) ≡ some e) same
                    (lookup-insert_self item.delivery_id e items);
              evolves = rw here (follows f);
              untouched = λ k. cc;
            }
        | no other ↦
            let old = kept id before h in
            record {
              now_is = old.now_is;
              stored = lookup-insert_ne item.delivery_id id e items other ∙ old.stored;
              evolves = old.evolves;
              untouched = old.untouched;
            }
      ]

  Granted-insert :
      (s : Outbox) (items : Items) (id : Text) (v e : DeliveryEnvelope)
      → e.delivery_id ≢ id
      → Granted s items e
      → Granted s (insert id v items) e
  Granted-insert s items id v e other g = record {
    before = g.before;
    was = g.was;
    fit = g.fit;
    spare = g.spare;
    number = g.number;
    newer = g.newer;
    is = g.is;
    stored = lookup-insert_ne id e.delivery_id v items (λ p. other (sym p)) ∙ g.stored;
  }

  all_Granted-insert :
      (s : Outbox) (items : Items) (item v : DeliveryEnvelope) (rest due : List DeliveryEnvelope)
      → All (λ d. All (λ u. d.delivery_id ≢ u.delivery_id) (item ∷ rest)) due
      → All (Granted s items) due
      → All (Granted s (insert item.delivery_id v items)) due
  all_Granted-insert s items item v rest [] apart g = tt
  all_Granted-insert s items item v rest (d ∷ due) apart g = (
    Granted-insert s items item.delivery_id v d apart.0.0 g.0,
    all_Granted-insert s items item v rest due apart.1 g.1,
  )

  fit_due :
      (item : DeliveryEnvelope)
      → eligible provider now item ≡ true
      → is_delivery_due item now ≡ true
  fit_due item h = ground arith

  apart_tail :
      (item : DeliveryEnvelope) (rest due : List DeliveryEnvelope)
      → All (λ d. All (λ u. d.delivery_id ≢ u.delivery_id) (item ∷ rest)) due
      → All (λ d. All (λ u. d.delivery_id ≢ u.delivery_id) rest) due
  apart_tail item rest due = All-map (λ d h. h.1) due

  Visit-Trace :
      (s : Outbox) (item : DeliveryEnvelope) (rest : List DeliveryEnvelope) (acc after : Progress)
      → Trace s (item ∷ rest) acc
      → Visit provider now seconds item acc after
      → Trace s rest after
  unfolding fail_exhausted_delivery lease_delivery
  Visit-Trace s item rest acc after t (skipped unfit e) = rw e (record {
    current = IsCurrent-skip id_of item rest t.current;
    original = t.original.1;
    kept = t.kept;
    counter = t.counter;
    granted = t.granted;
    apart = apart_tail item rest acc.1 t.apart;
  })
  Visit-Trace s item rest acc after t (exhausted fit out e) = rw e (record {
    current = IsCurrent-insert id_of item new acc.0.items rest t.current;
    original = t.original.1;
    kept = Kept-insert s acc.0.items item new t.original.0 fit f t.kept;
    counter = t.counter;
    granted = all_Granted-insert s acc.0.items item new rest acc.1 t.apart t.granted;
    apart = apart_tail item rest acc.1 t.apart;
  })
    where
      new : DeliveryEnvelope
      new = exhausted_item item now

      f : Follows item new
      f = fail_exhausted_delivery-Follows item now _ (fit_due item fit)
  Visit-Trace s item rest acc after t (leased fit left e) = rw e (record {
    current = IsCurrent-insert id_of item new acc.0.items rest t.current;
    original = t.original.1;
    kept = Kept-insert s acc.0.items item new t.original.0 fit f t.kept;
    counter = omega (arith, t.counter);
    granted =
        All-append _ acc.1 (new ∷ [])
          (all_Granted-insert s acc.0.items item new rest acc.1 t.apart t.granted) (g, tt);
    apart =
        All-append _ acc.1 (new ∷ []) (apart_tail item rest acc.1 t.apart)
          (t.current.distinct.0, tt);
  })
    where
      new : DeliveryEnvelope
      new = leased_item item now seconds acc.0

      f : Follows item new
      f = lease_delivery-Follows item now _ seconds (fit_due item fit)

      g : Granted s (insert item.delivery_id new acc.0.items) new
      g = record {
        before = item;
        was = t.original.0;
        fit = fit;
        spare = left;
        number = acc.0.lease_counter + 1;
        newer = omega (arith, t.counter);
        is = refl;
        stored = lookup-insert_self item.delivery_id new acc.0.items;
      }

  start-Trace : (s : Outbox) → IsValid s → Trace s (sorted envelope_key_le (values s.items)) (s, [])
  start-Trace s w =
      let fresh = sorted-values-IsCurrent id_of envelope_key_le s.items w.keyed in
      record {
        current = fresh;
        original = fresh.current;
        kept = λ id e h. record {
          now_is = e;
          stored = h;
          evolves = stays refl;
          untouched = λ _. refl;
        };
        counter = omega arith;
        granted = tt;
        apart = tt;
      }

  module _ (max_items : ℕ) (s : Outbox) (w : IsValid s) where
    lease_due-Trace :
        Ends provider now seconds max_items (Trace s) (lease_due provider now max_items seconds s)
    unfolding lease_due
    lease_due-Trace =
        lease_loop_ind provider now seconds max_items (Trace s)
          (λ item rest acc after t _ v. Visit-Trace s item rest acc after t v) _ (s, [])
          (start-Trace s w)

    -- Every stored item is still there; it has moved along the lifecycle, and only if it was
    -- eligible.
    pub lease_due-Kept : Every (Kept (lease_due provider now max_items seconds s).0.items) s.items
    lease_due-Kept = lease_due-Trace.holds.kept

    -- In a valid outbox every item that lease_due hands out was stored, was due for the
    -- provider and had attempts left, is the leased form of that item under a lease number
    -- greater than any before, and is stored so.
    pub lease_due-Granted :
        let (s', due) = lease_due provider now max_items seconds s in All (Granted s s'.items) due
    lease_due-Granted = lease_due-Trace.holds.granted
