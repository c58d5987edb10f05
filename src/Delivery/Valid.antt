-- ===== src/Delivery/Valid.antt =====
-- The invariant of the in-memory outbox (iris/runtime/delivery/in_memory.py) over its dictionaries
-- and its lease counter.
use iris_mind_v.Prelude.{
  ℕ, ◌+◌, ◌≤◌, ◌≡◌, sym, ap, ◌∙◌, inl, inr, ◌≢◌, Text, text, decimal_injective,
  append_left_injective, text_eq, Option, none, some, true, arith, is_some,
}
use iris_mind_v.Prelude.Dict.{
  Dict, lookup, insert, IsKeyed, insert-IsKeyed, lookup-insert, lookup-insert_inv, Every,
  insert-Every,
}
use iris_mind_v.Delivery.Types.{pending, DeliveryEnvelope}
use iris_mind_v.Delivery.Outbox.{Outbox, new_outbox, lease_name}
use iris_mind_v.Delivery.Lifecycle.{IsSound}

pub lease_name_injective : (m n : ℕ) → lease_name m ≡ lease_name n → m ≡ n
unfolding lease_name
lease_name_injective m n e = decimal_injective m n (append_left_injective (text "lease-") _ _ e)

-- The lease was given out by a counter up to `n`.
abbrev pub Issued : ℕ → Text → Type 0
Issued counter l = (n : ℕ) × (n ≤ counter) × (l ≡ lease_name n)

abbrev pub Items : Type 0
Items = Dict Text DeliveryEnvelope

abbrev pub Exclusive : Items → Type 0
Exclusive items =
    (i j : Text) (a b : DeliveryEnvelope) (l : Text)
    → lookup i items ≡ some a
    → lookup j items ≡ some b
    → a.lease_id ≡ some l
    → b.lease_id ≡ some l
    → i ≡ j

abbrev pub HasIssued : ℕ → DeliveryEnvelope → Type 0
HasIssued counter e = (l : Text) → e.lease_id ≡ some l → Issued counter l

pub record Valid (items : Items) (index : Dict Text Text) (counter : ℕ) : Type 0 where
  pub keyed : IsKeyed (λ e. e.delivery_id) items
  pub indexed : Every (λ key id. is_some (lookup id items) ≡ true) index
  pub sound : Every (λ id e. IsSound e) items
  pub issued : Every (λ id e. HasIssued counter e) items
  pub exclusive : Exclusive items

-- Each item stands under its id and is sound, each entry of the idempotency index names an item,
-- and the leases that are held were issued by the counter, each to one item.
abbrev pub IsValid : Outbox → Type 0
IsValid s = Valid s.items s.idempotency_index s.lease_counter

-- What the callers of `enqueue` build.
pub record IsNew (e : DeliveryEnvelope) : Type 0 where
  pub status : e.status ≡ pending
  pub attempts : e.attempts ≡ 0
  pub lease_id : e.lease_id ≡ none
  pub lease_expires_at : e.lease_expires_at ≡ none

pub IsNew-IsSound : (e : DeliveryEnvelope) → IsNew e → IsSound e
IsNew-IsSound e n = ground arith

pub new_outbox-IsValid : (depth : Option ℕ) → IsValid (new_outbox depth)
unfolding new_outbox lookup
new_outbox-IsValid depth = record {
  keyed = tt;
  indexed = λ key id h. cc;
  sound = λ id e h. cc;
  issued = λ id e h. cc;
  exclusive = λ i j a b l h. cc;
}

module _ {items : Items} {index : Dict Text Text} {counter : ℕ} (w : Valid items index counter)
    (id : Text) (e : DeliveryEnvelope) (keyed : e.delivery_id ≡ id) (sound : IsSound e) where
  indexed-insert : Every (λ key i. is_some (lookup i (insert id e items)) ≡ true) index
  indexed-insert key i h = ground (arith, lookup-insert id i e items, w.indexed key i h)

  -- A sound item without a lease may be written over any other.
  pub Valid-put : e.lease_id ≡ none → Valid (insert id e items) index counter
  Valid-put free = record {
    keyed = insert-IsKeyed _ id e items keyed w.keyed;
    indexed = indexed-insert;
    sound = insert-Every _ id e items sound w.sound;
    issued = insert-Every _ id e items (λ l h. cc) w.issued;
    exclusive = λ i j a b l hi hj ha hb. elim (lookup-insert_inv id i e items hi) [
      | inl (_, same) ↦ cc (ap (λ (x : DeliveryEnvelope). x.lease_id) same)
      | inr (_, old) ↦ elim (lookup-insert_inv id j e items hj) [
        | inl (_, same) ↦ cc (ap (λ (x : DeliveryEnvelope). x.lease_id) same)
        | inr (_, old') ↦ w.exclusive i j a b l old old' ha hb
      ]
    ];
  }

  Issued-suc : (a : DeliveryEnvelope) → HasIssued counter a → HasIssued (counter + 1) a
  Issued-suc a h l p = let (n, le, name) = h l p in (n, omega arith, name)

  -- So may an item under the next lease of the counter.
  fresh :
      (a : DeliveryEnvelope) (l : Text)
      → HasIssued counter a
      → a.lease_id ≡ some l
      → l ≢ lease_name (counter + 1)
  fresh a l h p q =
      let (n, le, name) = h l p in
      absurd (omega (arith, lease_name_injective n (counter + 1) (sym name ∙ q)))

  pub Valid-lease :
      e.lease_id ≡ some (lease_name (counter + 1)) → Valid (insert id e items) index (counter + 1)
  Valid-lease held = record {
    keyed = insert-IsKeyed _ id e items keyed w.keyed;
    indexed = indexed-insert;
    sound = insert-Every _ id e items sound w.sound;
    issued =
        insert-Every _ id e items (λ l h. (counter + 1, omega arith, cc))
          (λ i a h. Issued-suc a (w.issued i a h));
    exclusive = λ i j a b l hi hj ha hb. elim (lookup-insert_inv id i e items hi) [
      | inl (ei, same) ↦ elim (lookup-insert_inv id j e items hj) [
        | inl (ej, _) ↦ sym ei ∙ ej
        | inr (_, old) ↦
            absurd (
              fresh b l (w.issued j b old) hb (cc (ap (λ (x : DeliveryEnvelope). x.lease_id) same)))
      ]
      | inr (_, old) ↦ elim (lookup-insert_inv id j e items hj) [
        | inl (_, same) ↦
            absurd (
              fresh a l (w.issued i a old) ha (cc (ap (λ (x : DeliveryEnvelope). x.lease_id) same)))
        | inr (_, old') ↦ w.exclusive i j a b l old old' ha hb
      ]
    ];
  }

-- A new entry of the index may name a stored item.
pub Valid-index :
    {items : Items} {index : Dict Text Text} {counter : ℕ} (key id : Text)
    → Valid items index counter
    → is_some (lookup id items) ≡ true
    → Valid items (insert key id index) counter
Valid-index {index = index} key id w present = record {
  keyed = w.keyed;
  indexed = insert-Every _ key id index present w.indexed;
  sound = w.sound;
  issued = w.issued;
  exclusive = w.exclusive;
}
