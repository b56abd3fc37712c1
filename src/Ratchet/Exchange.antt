-- ===== src/Ratchet/Exchange.antt =====
-- A message between two sessions of src/lib.rs: `encrypt` on one side and `decrypt` on the other.
use ciphermesh.Prelude.{
  ℕ, ◌+◌, ◌-◌, ◌^◌, ◌<◌, ◌≤◌, List, ◌≡◌, ◌≢◌, refl, ap, arith, ◌∙◌, sym, subst, true, false, length,
  nat_ord, Bool-cases, inl, inr,
}
use ciphermesh.BTree.{lookup, contains_key}
use ciphermesh.Crypto.{Crypto, ok}
use ciphermesh.Crypto.Bytes.{same_bytes, same_bytes_self, eq_of_same_bytes}
use ciphermesh.Crypto.Utf8.{is_utf8}
use ciphermesh.Ratchet.State.{
  RatchetSession, RatchetMessage, encrypt, rotate_sending_ratchet, receive_dh_ratchet,
}
use ciphermesh.Ratchet.Receive.{decrypt}
use ciphermesh.Ratchet.Chains.{RatchetLaws, chain_at, sent_from, encrypt-Sealed}
use ciphermesh.Ratchet.Delivery.{Receives, Outer, outer}
use ciphermesh.Ratchet.AnyOrder.{decrypt-Sealed}
use ciphermesh.Ratchet.Rotation.{Rotation, rotate-Linked}
use ciphermesh.Ratchet.Agreement.{Linked, Opposite}

module _ (crypto : Crypto) (laws : RatchetLaws crypto) where
  open crypto use {x25519_public}

  -- Sending and opening change nothing that the other side relies on.
  delivered-Linked :
      (a b b' : RatchetSession) (l : Linked crypto laws a b)
      → a.send_count + 1 < 2 ^ 64
      → Receives crypto laws l.forth_chain b'
      → outer b' ≡ outer b
      → Linked crypto laws (sent_from crypto laws l.forth_chain a) b'
  delivered-Linked a b b' l room r same = record {
    opposite = subst (λ q. Opposite a.role q) (sym (ap (λ o. o.0) same)) l.opposite;
    roots = l.roots ∙ sym (ap (λ o. o.1) same);
    follows_b = l.follows_b ∙ sym (ap (λ o. x25519_public o.4) same);
    follows_a = ap (λ o. o.5) same ∙ l.follows_a;
    forth_chain = l.forth_chain;
    forth_sends = ap (chain_at crypto laws l.forth_chain) (omega (arith, room));
    forth_receives = r;
    back_chain = l.back_chain;
    back_sends =
        subst (λ (o : Outer). o.2 ≡ chain_at crypto laws l.back_chain o.3) (sym same) l.back_sends;
    back_receives = record {
      chain = l.back_receives.chain;
      skipped_below = l.back_receives.skipped_below;
      consumed_below = l.back_receives.consumed_below;
      known = l.back_receives.known;
    };
  }

  -- A message that one side encrypts and the other then decrypts gives its text, and the sessions
  -- still belong together. The message's number is one that the receiver has not opened yet, at most eight keys have to be kept for what is still under
  -- way, the sender's counter has room for one more message, and the text is UTF-8.
  pub decrypt-encrypt :
      (text : List ℕ) (a a' b : RatchetSession) (m : RatchetMessage)
      → Linked crypto laws a b
      → a.send_count + 1 < 2 ^ 64
      → encrypt crypto text a ≡ (ok m, a')
      → contains_key a.send_count b.consumed_message_numbers ≡ false
      → (a.send_count - b.recv_count) + length b.skipped_message_keys ≤ 8
      → is_utf8 text ≡ true
      → (b' : RatchetSession) × (decrypt crypto m b ≡ (ok text, b')) × Linked crypto laws a' b'
  decrypt-encrypt text a a' b m l room sent fresh few utf8 =
      let (sealed, number, _, left, _) =
        encrypt-Sealed crypto laws l.forth_chain text a a' m l.forth_sends room sent in
      let (b', opened) =
        decrypt-Sealed crypto laws l.forth_chain b text m l.forth_receives
          (record { key = sealed.key ∙ sym l.follows_a; text_sealed = sealed.text_sealed })
          (rw number fresh) (rw number few) (rw number room) utf8 in
      (
        b',
        opened.run,
        subst (λ x. Linked crypto laws x b') (sym left)
            (delivered-Linked a b b' l room opened.receives opened.same_outer),
      )

  -- What a message under a new key does is what it does once the session followed the key.
  follow :
      (b b' : RatchetSession) (m : RatchetMessage)
      → m.ratchet_public_key ≢ b.peer_ratchet_public_key
      → receive_dh_ratchet crypto m.ratchet_public_key b ≡ (ok tt, b')
      → m.ratchet_public_key ≡ b'.peer_ratchet_public_key
      → decrypt crypto m b ≡ decrypt crypto m b'
  unfolding decrypt
  follow b b' m ne follows same =
      let other : same_bytes m.ratchet_public_key b.peer_ratchet_public_key ≡ false =
        elim (Bool-cases (same_bytes m.ratchet_public_key b.peer_ratchet_public_key)) [
          | inl e ↦ absurd (ne (eq_of_same_bytes m.ratchet_public_key _ e))
          | inr e ↦ e
        ] in
      let current : same_bytes m.ratchet_public_key b'.peer_ratchet_public_key ≡ true =
        rw (← same) (same_bytes_self m.ratchet_public_key) in
      rw (other, follows, current) refl

  -- The first message after a rotation, where the new public key is not the one that the receiver
  -- follows: it follows the new one, reads the text, and the sessions belong together again.
  pub decrypt-rotated :
      Rotation crypto laws
      → (secret text : List ℕ) (a a' a'' b : RatchetSession) (m : RatchetMessage)
      → Linked crypto laws a b
      → rotate_sending_ratchet crypto secret a ≡ (ok tt, a')
      → x25519_public secret ≢ b.peer_ratchet_public_key
      → encrypt crypto text a' ≡ (ok m, a'')
      → is_utf8 text ≡ true
      → (b' : RatchetSession) × (decrypt crypto m b ≡ (ok text, b')) × Linked crypto laws a'' b'
  unfolding lookup
  decrypt-rotated shared secret text a a' a'' b m l rotated new_key sent utf8 =
      let (b', follows, l', (secret', none_sent, none_received, none_skipped, none_used)) =
        rotate-Linked crypto laws shared secret a b a' l rotated in
      let zero_room : a'.send_count + 1 < 2 ^ 64 = omega (arith, none_sent) in
      let (sealed, _, _, _, _) =
        encrypt-Sealed crypto laws l'.forth_chain text a' a'' m l'.forth_sends zero_room sent in
      let (c, run, after) =
        decrypt-encrypt text a' a'' b' m l' zero_room sent (rw none_used refl)
          (omega (arith, none_sent, ap length none_skipped)) utf8 in
      let key : m.ratchet_public_key ≡ x25519_public secret =
        sealed.key ∙ ap x25519_public secret' in
      (
        c,
        follow b b' m (λ e. new_key (sym key ∙ e)) (rw key follows) (sealed.key ∙ sym l'.follows_a)
            ∙ run,
        after,
      )
