-- ===== src/Ratchet/Agreement.antt =====
-- Two sessions of src/lib.rs that belong together: each receives what the other sends.
use ciphermesh.Prelude.{ℕ, List, [], ◌≡◌, refl, ap, arith, ◌∙◌, sym, subst, nat_ord, Member}
use ciphermesh.Crypto.{Crypto, Result, ok, err}
use ciphermesh.Ratchet.Stateful.{value_or}
use ciphermesh.Ratchet.State.{
  RatchetRole, alice, bob, chains, RatchetSession, new, derive_directional_chains,
}
use ciphermesh.Ratchet.Chains.{RatchetLaws, Sends, chain_at}
use ciphermesh.Ratchet.Delivery.{Receives}

abbrev pub Opposite : RatchetRole → RatchetRole → Type 0
Opposite alice bob = Unit {0}
Opposite bob alice = Unit {0}
Opposite _ _ = ¬ Unit {0}

module _ (crypto : Crypto) (laws : RatchetLaws crypto) where
  open crypto use {x25519_public}

  -- A session that just began to receive.
  abbrev Starts : List ℕ → RatchetSession → Type 0
  Starts first s =
      (s.recv_chain_key ≡ first)
      × (s.recv_count ≡ 0)
      × (s.skipped_message_keys ≡ [])
      × (s.consumed_message_numbers ≡ [])

  Starts-Receives :
      (first : List ℕ) (s : RatchetSession) → Starts first s → Receives crypto laws first s
  unfolding chain_at
  Starts-Receives first s (chain, count, skipped, consumed) = record {
    chain = rw count chain;
    skipped_below = λ e m. absurd ((subst (Member e) skipped m) tt);
    consumed_below = λ e m. absurd ((subst (Member e) consumed m) tt);
    known = λ i lt. absurd (omega (arith, count, lt));
  }

  pub record Linked (a b : RatchetSession) : Type 0 where
    pub opposite : Opposite a.role b.role
    pub roots : a.root_key ≡ b.root_key
    pub follows_b : a.peer_ratchet_public_key ≡ x25519_public b.dh_keys
    pub follows_a : b.peer_ratchet_public_key ≡ x25519_public a.dh_keys
    pub forth_chain : List ℕ
    pub forth_sends : Sends crypto laws forth_chain a
    pub forth_receives : Receives crypto laws forth_chain b
    pub back_chain : List ℕ
    pub back_sends : Sends crypto laws back_chain b
    pub back_receives : Receives crypto laws back_chain a

  -- The other side sees the same.
  pub turn-Linked : (a b : RatchetSession) → Opposite b.role a.role → Linked a b → Linked b a
  turn-Linked a b o l = record {
    opposite = o;
    roots = sym l.roots;
    follows_b = l.follows_a;
    follows_a = l.follows_b;
    forth_chain = l.back_chain;
    forth_sends = l.back_sends;
    forth_receives = l.back_receives;
    back_chain = l.forth_chain;
    back_sends = l.forth_sends;
    back_receives = l.forth_receives;
  }

  -- The session at the start of its chains.
  abbrev pub begun : RatchetRole → List ℕ → List ℕ → List ℕ → List ℕ → List ℕ → RatchetSession
  begun role root forth back keys peer = record {
    role = role;
    root_key = root;
    send_chain_key = (chains role forth back).0;
    recv_chain_key = (chains role forth back).1;
    send_count = 0;
    recv_count = 0;
    skipped_message_keys = [];
    consumed_message_numbers = [];
    dh_keys = keys;
    peer_ratchet_public_key = peer;
  }

  begun-Linked_forth :
      (root forth back keys peers : List ℕ)
      → Linked
          (begun alice root forth back keys (x25519_public peers))
          (begun bob root forth back peers (x25519_public keys))
  unfolding chain_at
  begun-Linked_forth root forth back keys peers = record {
    opposite = tt;
    roots = refl;
    follows_b = refl;
    follows_a = refl;
    forth_chain = forth;
    forth_sends = refl;
    forth_receives = Starts-Receives forth _ (refl, refl, refl, refl);
    back_chain = back;
    back_sends = refl;
    back_receives = Starts-Receives back _ (refl, refl, refl, refl);
  }

  pub begun-Linked :
      (r q : RatchetRole) (root forth back keys peers : List ℕ)
      → Opposite r q
      → Linked
          (begun r root forth back keys (x25519_public peers))
          (begun q root forth back peers (x25519_public keys))
  begun-Linked alice bob root forth back keys peers o =
      begun-Linked_forth root forth back keys peers
  begun-Linked bob alice root forth back keys peers o =
      turn-Linked _ _ tt (begun-Linked_forth root forth back peers keys)
  begun-Linked alice alice root forth back keys peers o = absurd (o tt)
  begun-Linked bob bob root forth back keys peers o = absurd (o tt)

  pub move_both : {a a' b b' : RatchetSession} → a ≡ a' → b ≡ b' → Linked a b → Linked a' b'
  move_both p q = subst (λ (x : RatchetSession × RatchetSession). Linked x.0 x.1) (λ i. (p i, q i))

  -- A new session stands at the start of the two chains of its root key.
  pub begun_of_new :
      (role : RatchetRole) (root keys peer : List ℕ) (s : RatchetSession)
      → new crypto root role keys peer ≡ ok s
      → (forth : List ℕ) × (back : List ℕ) × (derive_directional_chains crypto root
          ≡ ok (forth, back))
        × (begun role root forth back keys peer ≡ s)
  unfolding new
  begun_of_new role root keys peer s h = from_chains (derive_directional_chains crypto root) refl
    where
      from_chains :
          (r : Result (List ℕ × List ℕ))
          → derive_directional_chains crypto root ≡ r
          → (forth : List ℕ) × (back : List ℕ) × (derive_directional_chains crypto root
              ≡ ok (forth, back))
            × (begun role root forth back keys peer ≡ s)
      from_chains (err e) d =
          let failed : new crypto root role keys peer ≡ err e = rw d refl in absurd cc
      from_chains (ok (forth, back)) d =
          let s' = begun role root forth back keys peer in
          let made : new crypto root role keys peer ≡ ok s' = rw d refl in
          (forth, back, d, ap (value_or s') (sym made ∙ h))

  -- The same root key gives the other role its session.
  pub new_of_chains :
      (role : RatchetRole) (root forth back keys peer : List ℕ)
      → derive_directional_chains crypto root ≡ ok (forth, back)
      → new crypto root role keys peer ≡ ok (begun role root forth back keys peer)
  unfolding new
  new_of_chains role root forth back keys peer d = rw d refl

  -- Sessions that were made from one root key in the two roles, each with the other's public key,
  -- belong together.
  pub new-Linked :
      (root alice_keys bob_keys : List ℕ) (a b : RatchetSession)
      → new crypto root alice alice_keys (x25519_public bob_keys) ≡ ok a
      → new crypto root bob bob_keys (x25519_public alice_keys) ≡ ok b
      → Linked a b
  unfolding new
  new-Linked root alice_keys bob_keys a b ea eb =
      from_chains (derive_directional_chains crypto root) refl
    where
      from_chains :
          (r : Result (List ℕ × List ℕ)) → derive_directional_chains crypto root ≡ r → Linked a b
      from_chains (err e) h =
          let failed : new crypto root alice alice_keys (x25519_public bob_keys) ≡ err e =
            rw h refl in
          absurd cc
      from_chains (ok (forth, back)) h =
          let a' = begun alice root forth back alice_keys (x25519_public bob_keys) in
          let b' = begun bob root forth back bob_keys (x25519_public alice_keys) in
          let made : new crypto root alice alice_keys (x25519_public bob_keys) ≡ ok a' =
            rw h refl in
          let made' : new crypto root bob bob_keys (x25519_public alice_keys) ≡ ok b' = rw h refl in
          move_both (ap (value_or a') (sym made ∙ ea)) (ap (value_or b') (sym made' ∙ eb))
            (begun-Linked alice bob root forth back alice_keys bob_keys tt)
