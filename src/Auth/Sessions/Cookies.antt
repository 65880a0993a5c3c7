-- ===== src/Auth/Sessions/Cookies.antt =====
-- A new session is found with its cookie, which unlocks the private key again.
use wa_logger.Base.{
  ℕ, ◌+◌, ◌≤◌, ◌<◌, ◌≡◌, ◌∙◌, sym, ap, drop-drop, String, true, false, ◌-◌, Bool-cases, inl, inr,
  Option, some, ◌∷◌, ◌++◌, arith, refl, length, take, drop, take-append_length, drop-append_length,
  length-append, ltb,
}
use wa_logger.Base.Text.{Text, all_chars, text_beq, text_beq_iff}
use wa_logger.Crypto.Gcm.{Buffer, IsGcm, open_gcm-nonce}
use wa_logger.Auth.Store.{SessionRow, Repo, get_session, insert_session}
use wa_logger.Auth.Sessions.{
  Kit, SessionConfig, ActiveSession, create_session, parse_cookie_value, is_base64url, is_part,
  load_row, load_session, is_over, cut_agent, session_key, session_private_key, wrap_private_key,
  unwrap_private_key, aad_session, touch_interval_ms,
}

-- What Node documents of base64url, for the buffer of 32 bytes `b`: 43 characters of the alphabet, which give `b` back.
pub record IsEncoded (k : Kit) (b : Buffer) : Type 0 where
  pub size : length b ≡ 32
  pub chars : length (k.to_base64url b) ≡ 43
  pub alphabet : all_chars is_base64url (k.to_base64url b) ≡ true
  pub decodes : k.from_base64url (k.to_base64url b) ≡ b

is_part_lem : (s : Text) → length s ≡ 43 → all_chars is_base64url s ≡ true → is_part s ≡ true
unfolding is_part
is_part_lem s l a = ground (arith, l, a)

module _ (k : Kit) where
  parse-cookie :
      (sid secret : Buffer)
      → IsEncoded k sid
      → IsEncoded k secret
      → parse_cookie_value k (k.to_base64url sid ++ (46 ∷ k.to_base64url secret))
        ≡ some (sid, secret)
  unfolding parse_cookie_value
  parse-cookie sid secret a b =
      let s = k.to_base64url sid in
      let t = k.to_base64url secret in
      let e1 : take 43 (s ++ (46 ∷ t)) ≡ s =
        take-append_length 43 s (46 ∷ t) (omega (arith, a.chars)) in
      let e2 : drop 43 (s ++ (46 ∷ t)) ≡ 46 ∷ t =
        drop-append_length 43 s (46 ∷ t) (omega (arith, a.chars)) in
      let e3 : drop 44 (s ++ (46 ∷ t)) ≡ t =
        sym (drop-drop 43 1 (s ++ (46 ∷ t))) ∙ ap (drop 1) e2 in
      let e4 : length (s ++ (46 ∷ t)) ≡ 87 =
        omega (arith, length-append s (46 ∷ t), a.chars, b.chars) in
      let ps : is_part s ≡ true = is_part_lem s a.chars a.alphabet in
      let pt : is_part t ≡ true = is_part_lem t b.chars b.alphabet in
      rw (e4, e1, e2, e3, ps, pt, a.decodes, b.decodes, a.size, b.size)

  -- What HKDF, AES-GCM and base64url are documented to do for these values: keys have 32 bytes, opening inverts sealing,
  -- and the two random parts of the cookie can be read back.
  pub record IsKit (sid secret nonce : Buffer) : Type 0 where
    pub gcm : IsGcm k.cipher
    pub key : length (session_key k secret) ≡ 32
    pub nonce_size : length nonce ≡ 12
    pub sid_text : IsEncoded k sid
    pub secret_text : IsEncoded k secret

  load_row_live :
      (cfg : SessionConfig) (ip : Option String) (now : ℕ) (id secret : Buffer) (row : SessionRow)
      (r : Repo)
      → is_over cfg now row ≡ false
      → (s : ActiveSession) × ((load_row k cfg ip now id secret row r).0 ≡ some s)
        × (s.secret ≡ secret)
        × (s.row.privkey_enc ≡ row.privkey_enc)
  unfolding load_row
  load_row_live cfg ip now id secret row r live =
      rw live (elim (Bool-cases (ltb touch_interval_ms (now - row.last_seen_at))) [
        | inl late ↦ rw late (
          record { id_hash = id; secret = secret; row = record row { last_seen_at = now } },
          refl,
          refl,
          refl,
        )
        | inr soon ↦ rw soon (record { id_hash = id; secret = secret; row = row }, refl, refl, refl)
      ])

  load_session_found :
      (cfg : SessionConfig) (value : Text) (ip : Option String) (now : ℕ) (r : Repo)
      (sid secret : Buffer) (row : SessionRow)
      → parse_cookie_value k value ≡ some (sid, secret)
      → get_session (k.sha256 (sid ++ secret)) r ≡ some row
      → load_session k cfg value ip now r
        ≡ load_row k cfg ip now (k.sha256 (sid ++ secret)) secret row r
  unfolding load_session
  load_session_found cfg value ip now r sid secret row p g = rw (load_session, p, g)

  private_key_unlocked :
      (s : ActiveSession) (pk sid secret nonce : Buffer)
      → IsKit sid secret nonce
      → s.secret ≡ secret
      → s.row.privkey_enc ≡ wrap_private_key k (session_key k secret) pk aad_session nonce
      → session_private_key k s ≡ some pk
  unfolding session_private_key unwrap_private_key wrap_private_key
  private_key_unlocked s pk sid secret nonce is e w =
      rw (e, w)
        (open_gcm-nonce k.cipher (session_key k secret) nonce aad_session pk is.gcm is.key
          is.nonce_size)

  -- A session that was just created is accepted with its cookie while it is neither expired nor idle for too long, and
  -- the cookie unlocks the private key that was wrapped for it.
  pub load_session-create_session :
      (cfg : SessionConfig) (pk : Buffer) (ip later_ip : Option String) (agent : Option Text)
      (now later : ℕ) (sid secret nonce : Buffer) (r : Repo)
      → IsKit sid secret nonce
      → now ≤ later
      → later < now + cfg.session_max_ms
      → later < now + cfg.session_idle_ms
      → let made = create_session k cfg pk ip agent now sid secret nonce r in
        (s : ActiveSession) × ((load_session k cfg made.0 later_ip later made.1).0 ≡ some s)
        × (session_private_key k s ≡ some pk)
  unfolding create_session get_session
  load_session-create_session cfg pk ip later_ip agent now later sid secret nonce r is le young
        seen =
      let id = k.sha256 (sid ++ secret) in
      let row : SessionRow = record {
        id_hash = id;
        privkey_enc = wrap_private_key k (session_key k secret) pk aad_session nonce;
        created_at = now;
        last_seen_at = now;
        expires_at = now + cfg.session_max_ms;
        ip = ip;
        user_agent = cut_agent agent;
      } in
      let stored = insert_session row r in
      let live =
        load_row_live cfg later_ip later id secret row stored (ground (arith, young, seen)) in
      let same : text_beq id id ≡ true = (text_beq_iff id id).1 refl in
      (
        live.0,
        ap (λ x. x.0)
              (load_session_found cfg (k.to_base64url sid ++ (46 ∷ k.to_base64url secret)) later_ip
                later stored sid secret row (parse-cookie sid secret is.sid_text is.secret_text)
                (rw same))
            ∙ live.1,
        private_key_unlocked live.0 pk sid secret nonce is live.2 live.3,
      )
