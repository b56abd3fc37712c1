-- ===== src/Handshake/FirstMessage.antt =====
-- The first message of src/lib.rs, from a prekey bundle to a session on both sides.
use ciphermesh.Prelude.{ℕ, List, none, some, ◌≡◌, refl, ap, ◌∙◌, sym, arith, true, ◌==◌, nat_ord}
use ciphermesh.BTree.{lookup}
use ciphermesh.Crypto.{Crypto, ok}
use ciphermesh.Crypto.Utf8.{is_utf8}
use ciphermesh.Ratchet.Stateful.{value_or, step_of_success, equal_successes}
use ciphermesh.Ratchet.State.{RatchetSession, RatchetMessage, alice, bob, new, encrypt}
use ciphermesh.Ratchet.Receive.{decrypt}
use ciphermesh.Ratchet.Chains.{RatchetLaws, chain_at, encrypt-Sealed}
use ciphermesh.Ratchet.Agreement.{Linked, begun, begun-Linked, begun_of_new, new_of_chains}
use ciphermesh.Ratchet.Rotation.{Rotation}
use ciphermesh.Ratchet.Exchange.{decrypt-encrypt}
use ciphermesh.Handshake.Keys.{
  PreKeyBundle, InitialMessage, OneTimePreKey, derive_prekey_aead_key, verify_signed_prekey,
  sign_prekey,
}
use ciphermesh.Handshake.Parties.{
  Alice, Bob, encrypt_initial_message, encrypt_for_bob, prekey_bundle, decrypt_initial_message,
  decrypt_from_alice,
}

module _ (crypto : Crypto) where
  open crypto use {x25519_public, diffie_hellman}

  -- What an encryption of a first message that succeeds has gone through.
  record Began (secret text : List ℕ) (bundle : PreKeyBundle) (m : InitialMessage) (a' : Alice)
      : Type 0 where
    key : List ℕ
    derived :
        derive_prekey_aead_key crypto
          (diffie_hellman secret bundle.signed_prekey_public_key)
          (diffie_hellman secret bundle.one_time_prekey_public_key)
        ≡ ok key
    fresh : RatchetSession
    made : new crypto key alice secret bundle.signed_prekey_public_key ≡ ok fresh
    left : RatchetSession
    encrypted : encrypt crypto text fresh ≡ (ok m.message, left)
    session : a'.session ≡ some left
    initial : m.alice_initial_public_key ≡ m.message.ratchet_public_key
    id : m.one_time_prekey_id ≡ bundle.one_time_prekey_id

  encrypt-Began :
      (secret text : List ℕ) (bundle : PreKeyBundle) (m : InitialMessage) (a a' : Alice)
      → encrypt_initial_message crypto secret bundle text a ≡ (ok m, a')
      → Began secret text bundle m a'
  unfolding encrypt_initial_message encrypt_for_bob
  encrypt-Began secret text bundle m a a' h =
      let (_, checked, h1) = step_of_success (verify_signed_prekey crypto bundle) _ a a' m h in
      let (key, derived, h2) =
        step_of_success
          (derive_prekey_aead_key crypto (diffie_hellman secret bundle.signed_prekey_public_key)
            (diffie_hellman secret bundle.one_time_prekey_public_key))
          _ a a' m h1 in
      let (fresh, made, h3) =
        step_of_success (new crypto key alice secret bundle.signed_prekey_public_key) _ a a' m h2 in
      let left = (encrypt crypto text fresh).1 in
      let (c, sealed, h4) =
        step_of_success (encrypt crypto text fresh).0 _ (record a { session = some left }) a' m
          h3 in
      let first : InitialMessage = record {
        alice_initial_public_key = c.ratchet_public_key;
        one_time_prekey_id = bundle.one_time_prekey_id;
        message = c;
      } in
      let p = equal_successes first m (record a { session = some left }) a' h4 in
      let same : c ≡ m.message = ap (λ x. x.0.message) p in
      record {
        key = key;
        derived = derived;
        fresh = fresh;
        made = made;
        left = left;
        encrypted = λ i. ((sealed ∙ ap ok same) i, left);
        session = sym (ap (λ x. x.1.session) p);
        initial =
            sym (ap (λ x. x.0.alice_initial_public_key) p)
            ∙ ap (λ (n : RatchetMessage). n.ratchet_public_key) same;
        id = sym (ap (λ x. x.0.one_time_prekey_id) p);
      }

  -- Bob's side, step by step
  opens_first :
      (m : InitialMessage) (p : OneTimePreKey) (b : Bob) (key text : List ℕ) (t0 t : RatchetSession)
      → b.one_time_prekey ≡ some p
      → p.id ≡ m.one_time_prekey_id
      → derive_prekey_aead_key crypto
          (diffie_hellman b.signed_prekey m.alice_initial_public_key)
          (diffie_hellman p.keys m.alice_initial_public_key)
        ≡ ok key
      → new crypto key bob b.signed_prekey m.alice_initial_public_key ≡ ok t0
      → decrypt crypto m.message t0 ≡ (ok text, t)
      → decrypt_initial_message crypto m b
        ≡ (ok text, record b { one_time_prekey = none; session = some t })
  unfolding decrypt_initial_message decrypt_from_alice
  opens_first m p b key text t0 t there named derived made run =
      let matches : (p.id == m.one_time_prekey_id) ≡ true = ground (arith, named) in
      rw (there, matches, derived, made, run) refl

module _ (crypto : Crypto) (laws : RatchetLaws crypto) (shared : Rotation crypto laws) where
  open crypto use {x25519_public, diffie_hellman}

  -- A first message that Alice encrypts for a bundle of Bob's is read by Bob. He has used up the
  -- prekey then, and the two sessions belong together.
  pub decrypt_initial_message-encrypt_initial_message :
      (secret text : List ℕ) (p : OneTimePreKey) (bundle : PreKeyBundle) (m : InitialMessage)
      (a a' : Alice) (b : Bob)
      → b.one_time_prekey ≡ some p
      → prekey_bundle crypto b ≡ ok bundle
      → encrypt_initial_message crypto secret bundle text a ≡ (ok m, a')
      → is_utf8 text ≡ true
      → (b' : Bob) × (s : RatchetSession) × (t : RatchetSession) × (decrypt_initial_message crypto m
            b
          ≡ (ok text, b'))
        × (b'.one_time_prekey ≡ none)
        × (a'.session ≡ some s)
        × (b'.session ≡ some t)
        × Linked crypto laws s t
  unfolding prekey_bundle lookup chain_at
  decrypt_initial_message-encrypt_initial_message secret text p bundle m a a' b there published h
        utf8 =
      let began = encrypt-Began crypto secret text bundle m a a' h in
      let given : PreKeyBundle = record {
        identity_public_key = crypto.ed25519_public b.identity;
        signed_prekey_public_key = x25519_public b.signed_prekey;
        signed_prekey_signature = sign_prekey crypto b.identity (x25519_public b.signed_prekey);
        one_time_prekey_id = p.id;
        one_time_prekey_public_key = x25519_public p.keys;
      } in
      let made : prekey_bundle crypto b ≡ ok given = rw there refl in
      let q : given ≡ bundle = ap (value_or bundle) (sym made ∙ published) in
      let signed_key : bundle.signed_prekey_public_key ≡ x25519_public b.signed_prekey =
        sym (ap (λ (x : PreKeyBundle). x.signed_prekey_public_key) q) in
      let once_key : bundle.one_time_prekey_public_key ≡ x25519_public p.keys =
        sym (ap (λ (x : PreKeyBundle). x.one_time_prekey_public_key) q) in
      let (forth, back, chains, is_fresh) =
        begun_of_new crypto laws alice began.key secret bundle.signed_prekey_public_key began.fresh
          began.made in
      let f0 =
        begun crypto laws alice began.key forth back secret (x25519_public b.signed_prekey) in
      let t0 = begun crypto laws bob began.key forth back b.signed_prekey (x25519_public secret) in
      let fresh_is : began.fresh ≡ f0 =
        sym is_fresh ∙ ap (λ k. begun crypto laws alice began.key forth back secret k) signed_key in
      let sent : encrypt crypto text f0 ≡ (ok m.message, began.left) =
        ap (λ s. encrypt crypto text s) (sym fresh_is) ∙ began.encrypted in
      let linked : Linked crypto laws f0 t0 =
        begun-Linked crypto laws alice bob began.key forth back secret b.signed_prekey tt in
      let (sealed, _, _, _, _) =
        encrypt-Sealed crypto laws forth text f0 began.left m.message (chain_start forth)
          (omega arith) sent in
      let public : m.alice_initial_public_key ≡ x25519_public secret = began.initial ∙ sealed.key in
      let (t, run, after) =
        decrypt-encrypt crypto laws text f0 began.left t0 m.message linked (omega arith) sent refl
          (omega arith) utf8 in
      let signed_secret : diffie_hellman b.signed_prekey (x25519_public secret)
          ≡ diffie_hellman secret bundle.signed_prekey_public_key =
        shared b.signed_prekey secret ∙ ap (diffie_hellman secret) (sym signed_key) in
      let once_secret : diffie_hellman p.keys (x25519_public secret)
          ≡ diffie_hellman secret bundle.one_time_prekey_public_key =
        shared p.keys secret ∙ ap (diffie_hellman secret) (sym once_key) in
      let derived : derive_prekey_aead_key crypto
            (diffie_hellman b.signed_prekey m.alice_initial_public_key)
            (diffie_hellman p.keys m.alice_initial_public_key)
          ≡ ok began.key =
        ap
          (λ k.
            derive_prekey_aead_key crypto (diffie_hellman b.signed_prekey k)
              (diffie_hellman p.keys k))
          public
        ∙ (λ i. derive_prekey_aead_key crypto (signed_secret i) (once_secret i))
        ∙ began.derived in
      let made' : new crypto began.key bob b.signed_prekey m.alice_initial_public_key ≡ ok t0 =
        ap (new crypto began.key bob b.signed_prekey) public
        ∙ new_of_chains crypto laws bob began.key forth back b.signed_prekey (x25519_public secret)
            chains in
      (
        record b { one_time_prekey = none; session = some t },
        began.left,
        t,
        opens_first crypto m p b began.key text t0 t there
            (ap (λ (x : PreKeyBundle). x.one_time_prekey_id) q ∙ sym began.id) derived made' run,
        refl,
        began.session,
        refl,
        after,
      )
    where
      chain_start : (forth : List ℕ) → ◌≡◌ {A = List ℕ} forth (chain_at crypto laws forth 0)
      chain_start forth = refl
