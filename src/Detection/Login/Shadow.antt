-- ===== src/Detection/Login/Shadow.antt =====
-- The set of known addresses in Redis and the table behind it.
use infra_red.Prelude.{
  ℕ, suc, ◌+◌, ◌≡◌, ◌≢◌, refl, ◌∙◌, String, Bool, true, false, ◌&&◌, some, List, [], ◌∷◌, ltb, ◌==◌,
  str_eq, str_eq_refl, eq_iff, arith, if◌then◌else◌,
}
use infra_red.Redis.{Redis}
use infra_red.Detection.Login.Keys.{auth_known_ip}
use infra_red.Detection.Login.Known.{
  KnownIp, World, upsert_known_ip, get_known_ip_count, is_known_ip_for_user, remember, restore,
  resolve_known_ip, persist_known_ip,
}

module _ (R : Redis String) (tenant_id asset_id username : String) where
  -- a login of the user from an address, as far as the known addresses go
  abbrev pub visit : ℕ → String → World R → World R
  visit now ip w =
      persist_known_ip tenant_id asset_id username R now ip
        (resolve_known_ip tenant_id asset_id username R now ip w).0

  -- what the set holds after an address is added
  sismember-remember :
      (now : ℕ) (ip a : String) (db : R.Db)
      → let key = auth_known_ip tenant_id asset_id username in
        R.sismember now key a (remember tenant_id asset_id username R now ip db)
        ≡ (if str_eq a ip then true else R.sismember now key a db)
  sismember-remember now ip a db =
      let key = auth_known_ip tenant_id asset_id username in
      R.sismember-expire now now key a 86400 _ (omega arith)
      ∙ live (ltb now (now + 86400)) _ (omega_true now)
      ∙ R.sismember-sadd now key key ip a db
      ∙ same (str_eq key key) (str_eq a ip) _ (str_eq_refl key)
    where
      omega_true : (t : ℕ) → ltb t (t + 86400) ≡ true
      omega_true t = ground arith

      live : (b x : Bool) → b ≡ true → (if b then x else false) ≡ x
      live b x e = ground (arith, e)

      same : (b c x : Bool) → b ≡ true → (if b && c then true else x) ≡ (if c then true else x)
      same b c x e = ground (arith, e)

  scard-remember :
      (now : ℕ) (ip : String) (db : R.Db)
      → let key = auth_known_ip tenant_id asset_id username in
        R.scard now key (remember tenant_id asset_id username R now ip db)
        ≡ (if R.sismember now key ip db then R.scard now key db else R.scard now key db + 1)
  scard-remember now ip db =
      let key = auth_known_ip tenant_id asset_id username in
      R.scard-expire now now key 86400 _ (omega arith)
      ∙ live (ltb now (now + 86400)) _ (omega_true now)
      ∙ R.scard-sadd now key ip db
    where
      omega_true : (t : ℕ) → ltb t (t + 86400) ≡ true
      omega_true t = ground arith

      live : (b : Bool) (x : ℕ) → b ≡ true → (if b then x else 0) ≡ x
      live b x e = ground (arith, e)

  known_counts :
      (ip : String) (rows : List KnownIp)
      → is_known_ip_for_user tenant_id asset_id username ip rows ≡ true
      → ltb 0 (get_known_ip_count tenant_id asset_id username rows) ≡ true
  unfolding is_known_ip_for_user get_known_ip_count
  known_counts ip [] h = cc h
  known_counts ip (r ∷ rows) h = ground (arith, known_counts ip rows)

  -- with an empty set the table is asked, and the set begins with the address of the login
  resolve_empty :
      (now : ℕ) (ip : String) (db : R.Db) (rows : List KnownIp)
      → R.scard now (auth_known_ip tenant_id asset_id username) db ≡ 0
      → ltb 0 (get_known_ip_count tenant_id asset_id username rows) ≡ true
      → resolve_known_ip tenant_id asset_id username R now ip
          (record { kv = db; known_ips = some rows })
        ≡ (
          record { kv = remember tenant_id asset_id username R now ip db; known_ips = some rows },
          get_known_ip_count tenant_id asset_id username rows,
          is_known_ip_for_user tenant_id asset_id username ip rows,
        )
  unfolding resolve_known_ip restore
  resolve_empty now ip db rows e c = rw (e, c) refl

  -- with a set that has members the table is not asked
  resolve_full :
      (now n : ℕ) (ip : String) (w : World R)
      → R.scard now (auth_known_ip tenant_id asset_id username) w.kv ≡ suc n
      → resolve_known_ip tenant_id asset_id username R now ip w
        ≡ (w, suc n, R.sismember now (auth_known_ip tenant_id asset_id username) ip w.kv)
  unfolding resolve_known_ip
  resolve_full now n ip w e =
      full (R.scard now (auth_known_ip tenant_id asset_id username) w.kv) _ _ _ e
    where
      full :
          (k : ℕ) (b : Bool) (v : World R) (x : World R × ℕ × Bool)
          → k ≡ suc n
          → (if k == 0 then x else (v, k, b)) ≡ (v, suc n, b)
      full k b v x q = rw q (omitted (suc n == 0) (suc n) b v x (ground arith))
        where
          omitted :
              (c : Bool) (j : ℕ) (d : Bool) (u : World R) (y : World R × ℕ × Bool)
              → c ≡ false
              → (if c then y else (u, j, d)) ≡ (u, j, d)
          omitted true j d u y r = cc r
          omitted false j d u y r = refl

  -- Where the set in Redis has ended and the table knows the user: after a login from one address, a
  -- login in the same second from another address that the table knows is taken for unknown, since the
  -- set that was begun anew holds the first address alone.
  pub known_ip_shadowed :
      (now : ℕ) (ip other : String) (db : R.Db) (rows : List KnownIp)
      → ip ≢ other
      → R.scard now (auth_known_ip tenant_id asset_id username) db ≡ 0
      → ((a : String) → R.sismember now (auth_known_ip tenant_id asset_id username) a db ≡ false)
      → is_known_ip_for_user tenant_id asset_id username other rows ≡ true
      → let w : World R = record { kv = db; known_ips = some rows } in
        let answer = resolve_known_ip tenant_id asset_id username R now other (visit now ip w) in
        (answer.1 ≡ 1) × (answer.2 ≡ false)
  unfolding persist_known_ip
  known_ip_shadowed now ip other db rows apart empty none_ known =
      let key = auth_known_ip tenant_id asset_id username in
      let once = remember tenant_id asset_id username R now ip db in
      let twice = remember tenant_id asset_id username R now ip once in
      let first_ = resolve_empty now ip db rows empty (known_counts other rows known) in
      let differs : str_eq other ip ≡ false = ground (arith, eq_iff other ip, apart) in
      let size : R.scard now key twice ≡ 1 = ground (
        arith,
        scard-remember now ip once,
        scard-remember now ip db,
        sismember-remember now ip ip db,
        str_eq_refl ip,
        none_ ip,
        empty,
      ) in
      let absent : R.sismember now key other twice ≡ false = ground (
        arith,
        sismember-remember now ip other once,
        sismember-remember now ip other db,
        differs,
        none_ other,
      ) in
      let later : World R = record {
        kv = twice;
        known_ips = some (upsert_known_ip tenant_id asset_id username ip rows);
      } in
      rw first_ (rw (resolve_full now 0 other later size) (refl, absent))
