-- ===== src/World/Leads.antt =====
-- Runs of `World` that lead from one condition to another.
use circ.Base.{ℕ, ◌≡◌, refl, Option, none, some}
use circ.Glib.{Glib}
use circ.World.{Channel, World, Run, ok, crash, M, ◌>>=◌, ◌>>◌, load_channel}
use circ.World.Keeps.{Keeps, Then}

module _ ⦃g : Glib⦄ where
  -- Where `P` holds before the run and the run returns, `Q` holds after it.
  pub record Leads {A : Type 0} (P Q : World → Type 0) (m : M A) : Type 0 where
    pub at : (w : World) → P w → Then Q (m w)

  Then-Leads :
      {A B : Type 0} {Q R : World → Type 0} (r : Run A) (f : A → M B)
      → ((a : A) → Leads Q R (f a))
      → Then Q r
      → Then R (elim r [ ok a v ↦ f a v | crash ↦ crash ])
  Then-Leads (ok a v) f k h = (k a).at v h
  Then-Leads crash f k h = tt

  module _ {P Q R : World → Type 0} where
    pub Leads-bind :
        {A B : Type 0} (m : M A) (f : A → M B)
        → Leads P Q m
        → ((a : A) → Leads Q R (f a))
        → Leads P R (m >>= f)
    unfolding ◌>>=◌
    Leads-bind m f lm lf = record { at = λ w h. Then-Leads (m w) f lf (lm.at w h) }

    pub Leads-seq :
        {B : Type 0} (m : M (Unit {0})) (n : M B) → Leads P Q m → Leads Q R n → Leads P R (m >> n)
    unfolding ◌>>◌
    Leads-seq m n lm ln = Leads-bind m (λ _. n) lm (λ _. ln)

  module _ {P Q : World → Type 0} where
    Then-weaken : {A : Type 0} (r : Run A) → ((w : World) → P w → Q w) → Then P r → Then Q r
    Then-weaken (ok a w) k h = k w h
    Then-weaken crash k h = tt

    pub Keeps-Leads : {A : Type 0} (m : M A) → Keeps P m → ((w : World) → P w → Q w) → Leads P Q m
    Keeps-Leads m km k = record { at = λ w h. Then-weaken (m w) k (km.at w h) }

  Then-there :
      {A : Type 0} (P : World → Type 0) (w : World) (f : Channel → M A) (o : Option Channel)
      → ((c : Channel) → o ≡ some c → Then P (f c w))
      → let r : Run Channel = elim o [ none ↦ crash | some c ↦ ok c w ] in
        Then P (elim r [ ok a v ↦ f a v | crash ↦ crash ])
  Then-there P w f none k = tt
  Then-there P w f (some c) k = k c refl

  pub Then-load_channel :
      {A : Type 0} (P : World → Type 0) (w : World) (p : ℕ) (f : Channel → M A)
      → ((c : Channel) → w.channel_at p ≡ some c → Then P (f c w))
      → Then P ((load_channel p >>= f) w)
  unfolding load_channel ◌>>=◌
  Then-load_channel P w p f k = Then-there P w f (w.channel_at p) k
