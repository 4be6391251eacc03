-- ===== src/World/Keeps.antt =====
-- Invariants of the runs of `World`, with one rule for each way to build a run.
use circ.Base.{ℕ, ◌≡◌, refl, Bool, true, false, Option, none, some, Ptr, if◌then◌else◌}
use circ.Glib.{Glib}
use circ.World.{
  Client, Channel, World, Run, ok, crash, M, pure, ◌>>=◌, ◌>>◌, fault, get_server, load_client,
  load_channel, deref, maybe, read_string, read_string?,
}

module _ ⦃g : Glib⦄ where
  -- If the run returns, `P` holds after it.
  abbrev pub Then : {A : Type 0} → (World → Type 0) → Run A → Type 0
  Then P (ok a w) = P w
  Then P crash = Unit

  pub record Keeps {A : Type 0} (P : World → Type 0) (m : M A) : Type 0 where
    pub at : (w : World) → P w → Then P (m w)

  pub Then-ok :
      {A : Type 0} (P : World → Type 0) {r : Run A} {a : A} {w : World}
      → r ≡ ok a w
      → Then P r
      → P w
  Then-ok P e h = rw e at h

  Then-bind :
      {A B : Type 0} (P : World → Type 0) (r : Run A) (f : A → M B)
      → ((a : A) → Keeps P (f a))
      → Then P r
      → Then P (elim r [ ok a v ↦ f a v | crash ↦ crash ])
  Then-bind P (ok a v) f k h = (k a).at v h
  Then-bind P crash f k h = tt

  same-bind :
      {A B : Type 0} (P : World → Type 0) (r : Run A) (f f' : A → M B)
      → Then P r
      → ((a : A) (v : World) → P v → f a v ≡ f' a v)
      → ◌≡◌ {A = Run B}
          (elim r [ ok a v ↦ f a v | crash ↦ crash ])
          (elim r [ ok a v ↦ f' a v | crash ↦ crash ])
  same-bind P (ok a v) f f' h k = k a v h
  same-bind P crash f f' h k = refl

  -- Two blocks that differ only where an invariant of their first step holds.
  pub bind_same :
      {A B : Type 0} (P : World → Type 0) (m : M A) (f f' : A → M B) (w : World)
      → Then P (m w)
      → ((a : A) (v : World) → P v → f a v ≡ f' a v)
      → (m >>= f) w ≡ (m >>= f') w
  unfolding ◌>>=◌
  bind_same P m f f' w h k = same-bind P (m w) f f' h k

  -- The rest of a block may use what the load has found.
  Then-found :
      {A : Type 0} (P : World → Type 0) (w : World) (f : Client → M A) (o : Option Client)
      → ((c : Client) → o ≡ some c → Then P (f c w))
      → let r : Run Client = elim o [ none ↦ crash | some c ↦ ok c w ] in
        Then P (elim r [ ok a v ↦ f a v | crash ↦ crash ])
  Then-found P w f none k = tt
  Then-found P w f (some c) k = k c refl

  pub Then-load_client :
      {A : Type 0} (P : World → Type 0) (w : World) (p : ℕ) (f : Client → M A)
      → ((c : Client) → w.client_at p ≡ some c → Then P (f c w))
      → Then P ((load_client p >>= f) w)
  unfolding load_client ◌>>=◌
  Then-load_client P w p f k = Then-found P w f (w.client_at p) k

  pub Then-if :
      {A : Type 0} (P : World → Type 0) (b : Bool) (m n : M A) (w : World)
      → (b ≡ true → Then P (m w))
      → (b ≡ false → Then P (n w))
      → Then P ((if b then m else n) w)
  Then-if P true m n w left right = left refl
  Then-if P false m n w left right = right refl

  module _ {P : World → Type 0} where
    pub Keeps-pure : {A : Type 0} (a : A) → Keeps P (pure a)
    unfolding pure
    Keeps-pure a = record { at = λ w h. h }

    pub Keeps-fault : {A : Type 0} → Keeps P (fault {A = A})
    unfolding fault
    Keeps-fault = record { at = λ w h. tt }

    pub Keeps-bind :
        {A B : Type 0} (m : M A) (f : A → M B)
        → Keeps P m
        → ((a : A) → Keeps P (f a))
        → Keeps P (m >>= f)
    unfolding ◌>>=◌
    Keeps-bind m f km kf = record { at = λ w h. Then-bind P (m w) f kf (km.at w h) }

    pub Keeps-seq :
        {B : Type 0} (m : M (Unit {0})) (n : M B) → Keeps P m → Keeps P n → Keeps P (m >> n)
    unfolding ◌>>◌
    Keeps-seq m n km kn = Keeps-bind m (λ _. n) km (λ _. kn)

    pub Keeps-if :
        {A : Type 0} (b : Bool) (m n : M A) → Keeps P m → Keeps P n → Keeps P (if b then m else n)
    Keeps-if true m n km kn = km
    Keeps-if false m n km kn = kn

    pub Keeps-maybe :
        {A B : Type 0} (o : Option A) (m : M B) (f : A → M B)
        → Keeps P m
        → ((a : A) → Keeps P (f a))
        → Keeps P (maybe o m f)
    unfolding maybe
    Keeps-maybe none m f km kf = km
    Keeps-maybe (some a) m f km kf = kf a

    pub Keeps-get_server : Keeps P get_server
    unfolding get_server
    Keeps-get_server = record { at = λ w h. h }

    pub Keeps-load_client : (p : ℕ) → Keeps P (load_client p)
    unfolding load_client
    Keeps-load_client p = record { at = λ w h. go w (w.client_at p) h }
      where
        go :
            (w : World) (o : Option Client)
            → P w
            → Then P (elim o [ none ↦ crash | some c ↦ ok c w ])
        go w none h = tt
        go w (some c) h = h

    pub Keeps-load_channel : (p : ℕ) → Keeps P (load_channel p)
    unfolding load_channel
    Keeps-load_channel p = record { at = λ w h. go w (w.channel_at p) h }
      where
        go :
            (w : World) (o : Option Channel)
            → P w
            → Then P (elim o [ none ↦ crash | some c ↦ ok c w ])
        go w none h = tt
        go w (some c) h = h

    pub Keeps-deref : (o : Option ℕ) → Keeps P (deref o)
    unfolding deref
    Keeps-deref none = Keeps-fault
    Keeps-deref (some p) = Keeps-pure p

    pub Keeps-read_string : (client : ℕ) (p : Ptr) → Keeps P (read_string client p)
    unfolding read_string
    Keeps-read_string client none = Keeps-fault
    Keeps-read_string client (some p) =
        Keeps-bind _ _ (Keeps-load_client client) (λ c. Keeps-pure _)

    pub Keeps-read_string? : (client : ℕ) (p : Ptr) → Keeps P (read_string? client p)
    unfolding read_string?
    Keeps-read_string? client none = Keeps-pure none
    Keeps-read_string? client (some p) =
        Keeps-bind _ _ (Keeps-load_client client) (λ c. Keeps-pure _)

pub ruleset run_rules = (
  Keeps-pure, Keeps-fault, Keeps-bind, Keeps-seq, Keeps-if, Keeps-maybe, Keeps-get_server,
  Keeps-load_client, Keeps-load_channel, Keeps-deref, Keeps-read_string, Keeps-read_string?,
)
