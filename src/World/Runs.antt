-- ===== src/World/Runs.antt =====
-- Equations of the runs of `World`: what a block does once its first step is known.
use circ.Base.{ℕ, ◌≡◌, ap, Option, none, some}
use circ.Glib.{Glib}
use circ.World.{
  Client, Channel, World, Run, ok, crash, M, ◌>>=◌, ◌>>◌, load_client, store_client, modify_client,
  load_channel, update,
}

module _ ⦃g : Glib⦄ where
  pub bind-ok :
      {A B : Type 0} (m : M A) (f : A → M B) (w : World) (a : A) (v : World)
      → m w ≡ ok a v
      → (m >>= f) w ≡ f a v
  unfolding ◌>>=◌
  bind-ok {A} {B} m f w a v e = ap continue e
    where
      continue : Run A → Run B
      continue r = elim r [ ok b u ↦ f b u | crash ↦ crash ]

  pub seq-ok :
      {B : Type 0} (m : M (Unit {0})) (n : M B) (w v : World) → m w ≡ ok tt v → (m >> n) w ≡ n v
  unfolding ◌>>◌
  seq-ok m n w v e = bind-ok m (λ _. n) w tt v e

  pub seq-crash :
      {B : Type 0} (m : M (Unit {0})) (n : M B) (w : World) → m w ≡ crash → (m >> n) w ≡ crash
  unfolding ◌>>◌ ◌>>=◌
  seq-crash {B} m n w e = ap continue e
    where
      continue : Run (Unit {0}) → Run B
      continue r = elim r [ ok b u ↦ n u | crash ↦ crash ]

  pub bind-crash :
      {A B : Type 0} (m : M A) (f : A → M B) (w : World) → m w ≡ crash → (m >>= f) w ≡ crash
  unfolding ◌>>=◌
  bind-crash {A} {B} m f w e = ap continue e
    where
      continue : Run A → Run B
      continue r = elim r [ ok b u ↦ f b u | crash ↦ crash ]

  -- Two first steps that do the same.
  pub seq_same :
      {B : Type 0} (m m' : M (Unit {0})) (n : M B) (w : World)
      → m w ≡ m' w
      → (m >> n) w ≡ (m' >> n) w
  unfolding ◌>>◌ ◌>>=◌
  seq_same {B} m m' n w e = ap continue e
    where
      continue : Run (Unit {0}) → Run B
      continue r = elim r [ ok b u ↦ n u | crash ↦ crash ]

  pub load_client-ok :
      (p : ℕ) (w : World) (c : Client) → w.client_at p ≡ some c → load_client p w ≡ ok c w
  unfolding load_client
  load_client-ok p w c here = ap found here
    where
      found : Option Client → Run Client
      found o = elim o [ none ↦ crash | some d ↦ ok d w ]

  pub modify_client-ok :
      (p : ℕ) (f : Client → Client) (w : World) (c : Client)
      → w.client_at p ≡ some c
      → modify_client p f w ≡ ok tt (record w { client_at = update w.client_at p (some (f c)) })
  unfolding modify_client store_client
  modify_client-ok p f w c here = bind-ok _ _ w c w (load_client-ok p w c here)

  pub load_channel-ok :
      (p : ℕ) (w : World) (c : Channel) → w.channel_at p ≡ some c → load_channel p w ≡ ok c w
  unfolding load_channel
  load_channel-ok p w c here = ap found here
    where
      found : Option Channel → Run Channel
      found o = elim o [ none ↦ crash | some d ↦ ok d w ]

  -- A block whose first step is a load of a struct that is not there.
  pub load_client-crash :
      {B : Type 0} (p : ℕ) (f : Client → M B) (w : World)
      → w.client_at p ≡ none
      → (load_client p >>= f) w ≡ crash
  unfolding load_client ◌>>=◌
  load_client-crash {B} p f w gone = ap found gone
    where
      found : Option Client → Run B
      found o =
          let r : Run Client = elim o [ none ↦ crash | some d ↦ ok d w ] in
          elim r [ ok a v ↦ f a v | crash ↦ crash ]

  -- The same for a channel.
  pub load_channel-crash :
      {B : Type 0} (p : ℕ) (f : Channel → M B) (w : World)
      → w.channel_at p ≡ none
      → (load_channel p >>= f) w ≡ crash
  unfolding load_channel ◌>>=◌
  load_channel-crash {B} p f w gone = ap found gone
    where
      found : Option Channel → Run B
      found o =
          let r : Run Channel = elim o [ none ↦ crash | some d ↦ ok d w ] in
          elim r [ ok a v ↦ f a v | crash ↦ crash ]
