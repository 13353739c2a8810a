-- ===== src/Meta/Server/Reached.antt =====
-- What a client that waits can see: the server after the requests before each of its looks.
use awex.Prelude.{
  ℕ, zero, suc, ◌+◌, ◌-◌, ◌≡◌, refl, ap, ◌∙◌, inl, inr, String, ltb, arith, Bool-cases, Option,
}
use awex.Meta.Server.State.{Codec, MetaServer}
use awex.Meta.Server.Wait.{World, Watch, server_now, look, sleep, slow_check}

module _ {Bytes Obj Json : Type 0} (lib : Codec Bytes Obj Json) (len : Obj → Option ℕ)
    (world : World Bytes) (key : String) where
  -- The server after this many more looks, for the number of looks before.
  abbrev pub server_after : ℕ → ℕ → MetaServer Bytes Obj → MetaServer Bytes Obj
  server_after zero looks server = server
  server_after (suc n) looks server =
      server_after n (looks + 1) (server_now lib len world key looks server)

  -- From one watch to another there are only looks, and what other clients ask for before them.
  abbrev pub Reached : Watch Bytes Obj → Watch Bytes Obj → Type 0
  Reached before after =
      (n : ℕ) × (after.looks ≡ before.looks + n)
      × (after.server ≡ server_after n before.looks before.server)

  pub reached_now : (watch : Watch Bytes Obj) → Reached watch watch
  reached_now watch = (0, omega arith, refl)

  pub reached_look :
      (watch after : Watch Bytes Obj)
      → Reached (look lib len world key watch) after
      → Reached watch after
  reached_look watch after (n, looks, same) = (suc n, omega (arith, looks), same)

  server_after-add :
      (m n looks : ℕ) (server : MetaServer Bytes Obj)
      → server_after n (looks + m) (server_after m looks server) ≡ server_after (m + n) looks server
  server_after-add zero n looks server =
      let z : looks + 0 ≡ looks = omega arith in let z' : 0 + n ≡ n = omega arith in rw (z, z') refl
  server_after-add (suc m) n looks server =
      let e : looks + suc m ≡ looks + 1 + m = omega arith in
      let e' : suc m + n ≡ suc (m + n) = omega arith in
      rw (e, e') (server_after-add m n (looks + 1) (server_now lib len world key looks server))

  pub reached_trans : (a b c : Watch Bytes Obj) → Reached a b → Reached b c → Reached a c
  reached_trans a b c (m, looks, same) (n, looks', same') = (
    m + n,
    omega (arith, looks, looks'),
    same'
        ∙ ap (λ l. server_after n l b.server) looks
        ∙ ap (λ s. server_after n (a.looks + m) s) same
        ∙ server_after-add m n a.looks a.server,
  )

  -- A watch with the same server and the same looks.
  pub reached_from :
      (a b c : Watch Bytes Obj)
      → a.server ≡ b.server
      → a.looks ≡ b.looks
      → Reached a c
      → Reached b c
  reached_from a b c same looks (n, looks', same') = (
    n,
    omega (arith, looks, looks'),
    same' ∙ ap (λ l. server_after n l a.server) looks ∙ ap (λ s. server_after n b.looks s) same,
  )

  pub slow_check-unmoved :
      (last_check : ℕ) (watch : Watch Bytes Obj)
      → ((slow_check lib len world key last_check watch).server ≡ watch.server)
        × ((slow_check lib len world key last_check watch).looks ≡ watch.looks)
  slow_check-unmoved last_check watch = elim (Bool-cases (ltb 3000 (watch.time - last_check))) [
    | inl long ↦ rw long (refl, refl)
    | inr short ↦ rw short (refl, refl)
  ]

  -- The sleeps after a look change nothing.
  pub reached_sleep :
      (last_check interval : ℕ) (watch after : Watch Bytes Obj)
      → Reached
          (sleep lib len world key interval (slow_check lib len world key last_check watch))
          after
      → Reached watch after
  reached_sleep last_check interval watch after h =
      let checked = slow_check lib len world key last_check watch in
      let unmoved = slow_check-unmoved last_check watch in
      reached_from (sleep lib len world key interval checked) watch after unmoved.0 unmoved.1 h
