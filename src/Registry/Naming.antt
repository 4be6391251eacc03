-- ===== src/Registry/Naming.antt =====
-- `Client_TryChangeNick`, `Client_TryRegister` and the accepting of a client, in src/client.c: the
-- operations that write to the registry.
use circ.Base.{
  ℕ, ◌<◌, ◌≡◌, refl, sym, ap, ◌∙◌, inl, inr, Bool, true, false, ◌&&◌, Option, none, some, some_inj,
  none_absurd, Bytes, if◌then◌else◌, ◌==◌, ==_iff, str_eq, str_eq_iff, Bool-cases, arith, ltb,
  length,
}
use circ.Channel.{is_some}
use circ.Client.{set_nickname, client_try_change_nick}
use circ.Glib.{Glib, Response}
use circ.Irc.{nick_max_size}
use circ.Registry.{who, IsRegistry}
use circ.Frame.{identity}
use circ.Frame.Forward.{Keeps-format}
use circ.World.{
  Client, World, Run, ok, crash, pure, fault, ◌>>=◌, ◌>>◌, get_server, modify_server, load_client,
  store_client, modify_client, update,
}
use circ.World.Runs.{seq-ok, modify_client-ok}
use circ.World.Keeps.{Then-if, Keeps, Then, Keeps-pure, Keeps-bind, Then-load_client}

module _ ⦃g : Glib⦄ where
  -- The table of nicknames after the change, and the world.
  abbrev pub renamed_nicks : g.strings.Table → Client → Bytes → g.strings.Table
  renamed_nicks t c nick =
      g.strings.insert (if c.received_nick then g.strings.remove t c.nickname else t) nick
        c.client_id

  abbrev pub renamed : World → ℕ → Client → Bytes → World
  renamed w p c nick = record w {
    server = record (w.server) { nicks = renamed_nicks w.server.nicks c nick };
    client_at = update w.client_at p (some (record c { nickname = nick; received_nick = true }));
  }

  pub lookup-renamed :
      (t : g.strings.Table) (c : Client) (nick n : Bytes)
      → g.strings.lookup (renamed_nicks t c nick) n ≡ (
          if str_eq nick n
          then some c.client_id
          else if c.received_nick && str_eq c.nickname n
          then none
          else g.strings.lookup t n)
  lookup-renamed t c nick n =
      rw (g.strings.lookup-insert _ nick n c.client_id) (elim (Bool-cases c.received_nick) [
        | inl named ↦ rw (named, g.strings.lookup-remove t c.nickname n)
        | inr unnamed ↦ rw unnamed
      ])

  who-renamed :
      (w : World) (p : ℕ) (c : Client) (nick : Bytes) (q : ℕ)
      → who (renamed w p c nick) q ≡ (if p == q then some (c.client_id, nick, true) else who w q)
  who-renamed w p c nick q = ground arith

  change-short :
      (w : World) (p : ℕ) (c : Client) (nick : Bytes)
      → w.client_at p ≡ some c
      → (modify_server (λ v. record v {
        nicks =
            g.strings.insert
              (if c.received_nick then g.strings.remove v.nicks c.nickname else v.nicks)
              nick
              c.client_id;
      })
            >> (modify_client p (λ d. record d { nickname = nick; received_nick = true })
                >> pure {A = Option Response} none))
          w
        ≡ ok none (renamed w p c nick)
  unfolding modify_server pure
  change-short w p c nick here =
      let v : World = record w {
        server = record (w.server) { nicks = renamed_nicks w.server.nicks c nick };
      } in
      let f : Client → Client = λ d. record d { nickname = nick; received_nick = true } in
      seq-ok _ _ w v refl
      ∙ seq-ok (modify_client p f) (pure {A = Option Response} none) v _
          (modify_client-ok p f v c here)

  -- What the last branch of `client_try_change_nick` does.
  pub change-renamed :
      (w : World) (p : ℕ) (c : Client) (nick : Bytes)
      → w.client_at p ≡ some c
      → (modify_server (λ v. record v {
        nicks =
            g.strings.insert
              (if c.received_nick then g.strings.remove v.nicks c.nickname else v.nicks)
              nick
              c.client_id;
      })
            >> (set_nickname p nick >> pure {A = Option Response} none))
          w
        ≡ (if ltb nick_max_size (length nick) then crash else ok none (renamed w p c nick))
  unfolding modify_server set_nickname ◌>>◌ ◌>>=◌ modify_client load_client store_client pure fault
  change-renamed w p c nick here = elim (Bool-cases (ltb nick_max_size (length nick))) [
    | inl long ↦ rw long
    | inr short ↦ rw short (change-short w p c nick here)
  ]

  module _ {w : World} (r : IsRegistry w) (p : ℕ) (c : Client) (here : w.client_at p ≡ some c)
      (nick : Bytes) (free : g.strings.lookup w.server.nicks nick ≡ none) where
    mine :
        (g.ints.lookup w.server.clients c.client_id ≡ some p)
        × (0 < c.client_id)
        × (c.client_id < w.server.id_counter)
        × (p < w.next_client)
    mine = r.enrolled p c.client_id c.nickname c.received_nick (ap identity here)

    -- The only client that the table has under the old nickname is this one.
    only_mine :
        (q id : ℕ) (n : Bytes)
        → who w q ≡ some (id, n, true)
        → c.received_nick && str_eq c.nickname n ≡ true
        → p ≡ q
    only_mine q id n h both =
        let named : (c.received_nick ≡ true) × (str_eq c.nickname n ≡ true) = ground arith in
        let e = (str_eq_iff c.nickname n).0 named.1 in
        let old : who w p ≡ some (c.client_id, n, true) = rw (here, named.0, e) in
        let l1 = r.listed p c.client_id n old in
        let same_id : some c.client_id ≡ some id = sym l1 ∙ r.listed q id n h in
        let e0 = (r.enrolled q id n true h).0 in
        let e1 : some p ≡ some q =
          sym mine.0 ∙ ap (g.ints.lookup w.server.clients) (some_inj.0 same_id) ∙ e0 in
        some_inj.0 e1

    another :
        (q id : ℕ) (n : Bytes)
        → who w q ≡ some (id, n, true)
        → c.received_nick && str_eq c.nickname n ≡ false
        → p == q ≡ false
    another q id n h stays = elim (Bool-cases (p == q)) [
      | inl same ↦
          let i : some (c.client_id, c.nickname, c.received_nick) ≡ some (id, n, true) =
            sym (ap identity here) ∙ ap (who w) ((==_iff p q).0 same) ∙ h in
          let (named, e) : (c.received_nick ≡ true) × (c.nickname ≡ n) = ground arith in
          let t : str_eq c.nickname n ≡ true = (str_eq_iff c.nickname n).1 e in ground arith
      | inr other ↦ other
    ]

    renamed-known :
        (n : Bytes) (id : ℕ)
        → g.strings.lookup (renamed w p c nick).server.nicks n ≡ some id
        → (q : ℕ) × (g.ints.lookup w.server.clients id ≡ some q)
          × (who (renamed w p c nick) q ≡ some (id, n, true))
    renamed-known n id h0 =
        let h = sym (lookup-renamed w.server.nicks c nick n) ∙ h0 in
        elim (Bool-cases (str_eq nick n)) [
          | inl same ↦
              let e : nick ≡ n = (str_eq_iff nick n).0 same in
              let i : some c.client_id ≡ some id = rw same at h in
              (
                p,
                ap (g.ints.lookup w.server.clients) (sym (some_inj.0 i)) ∙ mine.0,
                who-renamed w p c nick p ∙ ground arith,
              )
          | inr other ↦
              let h1 : (if c.received_nick && str_eq c.nickname n
                    then none
                    else g.strings.lookup w.server.nicks n)
                  ≡ some id =
                rw other at h in
              elim (Bool-cases (c.received_nick && str_eq c.nickname n)) [
                | inl gone ↦ none_absurd (rw gone at h1)
                | inr stays ↦
                    let (q, e, i) = r.known n id (rw stays at h1) in
                    let other_q = another q id n i stays in
                    (q, e, who-renamed w p c nick q ∙ rw other_q i)
              ]
        ]

    renamed-listed :
        (q id : ℕ) (n : Bytes)
        → who (renamed w p c nick) q ≡ some (id, n, true)
        → g.strings.lookup (renamed w p c nick).server.nicks n ≡ some id
    renamed-listed q id n h0 =
        let h = sym (who-renamed w p c nick q) ∙ h0 in
        lookup-renamed w.server.nicks c nick n ∙ (elim (Bool-cases (p == q)) [
          | inl same ↦
              let i : some (c.client_id, nick, true) ≡ some (id, n, true) = rw same at h in
              let (i0, i1, i2) : (c.client_id ≡ id) × (nick ≡ n) × (true ≡ true) = ground arith in
              let e : str_eq nick n ≡ true = (str_eq_iff nick n).1 i1 in rw e (ap some i0)
          | inr other ↦
              let i : who w q ≡ some (id, n, true) = rw other at h in
              let l = r.listed q id n i in
              let taken : str_eq nick n ≡ false = elim (Bool-cases (str_eq nick n)) [
                | inl same ↦
                    let e = (str_eq_iff nick n).0 same in
                    none_absurd (sym free ∙ ap (g.strings.lookup w.server.nicks) e ∙ l)
                | inr d ↦ d
              ] in
              let stays : c.received_nick && str_eq c.nickname n ≡ false =
                elim (Bool-cases (c.received_nick && str_eq c.nickname n)) [
                  | inl gone ↦ let e = (==_iff p q).1 (only_mine q id n i gone) in ground arith
                  | inr d ↦ d
                ] in
              rw (taken, stays) l
        ])

    renamed-IsRegistry : IsRegistry (renamed w p c nick)
    renamed-IsRegistry = record {
      known = renamed-known;
      listed = renamed-listed;
      enrolled = λ q id n b h0.
          let h = sym (who-renamed w p c nick q) ∙ h0 in
          elim (Bool-cases (p == q)) [
            | inl same ↦
                let i : some (c.client_id, nick, true) ≡ some (id, n, b) = rw same at h in
                let e : c.client_id ≡ id = ground arith in
                rw (sym e, sym ((==_iff p q).0 same)) mine
            | inr other ↦ r.enrolled q id n b (rw other at h)
          ];
      counting = r.counting;
    }

  lookup-free : (o : Option ℕ) → is_some o ≡ false → o ≡ none
  lookup-free none h = refl
  lookup-free (some a) h = ground arith

  abbrev if_run : Bool → World → Run (Option Response)
  if_run b v = if b then crash else ok none v

  Then-result : (b : Bool) (v : World) → IsRegistry v → Then IsRegistry (if_run b v)
  Then-result true v h = tt
  Then-result false v h = h

  pub Keeps-client_try_change_nick :
      (client : ℕ) (nick : Bytes) → Keeps IsRegistry (client_try_change_nick client nick)
  unfolding client_try_change_nick ◌>>=◌ get_server
  Keeps-client_try_change_nick client nick = record {
    at = λ w r. Then-load_client IsRegistry w client _ (λ c here.
        Then-if IsRegistry (is_some (g.strings.lookup w.server.nicks nick)) _ _ w
          (λ taken. (Keeps-bind _ _ (Keeps-format _) (λ _. Keeps-pure _)).at w r)
          (λ free.
            rw (change-renamed w client c nick here)
              (Then-result _ _ (renamed-IsRegistry r client c here nick (lookup-free _ free)))));
  }
