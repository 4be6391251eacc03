-- ===== src/World.antt =====
-- The state that the handlers share: include/server.h, include/client.h and include/channel.h,
-- and a heap. A pointer to a client or a channel is an index into the heap; a cell that is
-- empty was freed or never allocated. What is written to sockets goes to a log.
pub mod Keeps
pub mod Runs
pub mod Leads
use circ.Base.{
  ℕ, ◌+◌, ◌-◌, ◌%◌, ◌^◌, ◌≡◌, refl, Bool, true, false, Option, none, some, List, [], ◌∷◌, ◌++◌,
  Bytes, Ptr, string_at, to_lower, drop, take, ◌==◌, if◌then◌else◌,
}
use circ.Connection.{Conn}
use circ.Glib.{Glib, Response}

-- A character array is the string that it holds. The arrays are zeroed by `calloc`.
module _ ⦃g : Glib⦄ where
  -- `struct client_s`, without `server`, which always points to `g_server`.
  pub record Client : Type 0 where
    pub registered : Bool
    pub received_nick : Bool
    pub received_user : Bool
    pub client_id : ℕ
    pub conn : Conn
    pub responses : g.queues.Queue
    pub nickname : Bytes
    pub username : Bytes
    pub hostname : Bytes
    pub fullname : Bytes
    pub away : Bool
    pub away_message : Bytes

  -- `struct channel_s`, without the flags that no code reads.
  pub record Channel : Type 0 where
    pub name : Bytes
    pub topic : Bytes
    pub members : g.ints.Table
    pub member_modes : g.ints.Table

  -- `struct server_s`. The counters are `uint32_t`.
  pub record Server : Type 0 where
    pub id_counter : ℕ
    pub nicks : g.strings.Table
    pub clients : g.ints.Table
    pub channels : g.strings.Table
    pub hostname : Bytes
    pub motd : Option Bytes
    pub n_users : ℕ
    pub n_services : ℕ
    pub n_unknown : ℕ
    pub n_operators : ℕ
    pub n_channels : ℕ

  -- `client_at` and `channel_at` are the heap; `next_client` and `next_channel` are the next
  -- addresses that `calloc` returns; `sent` is the log of `write` and `closed` that of `close`, newest
  -- last.
  pub record World : Type 0 where
    pub server : Server
    pub client_at : ℕ → Option Client
    pub next_client : ℕ
    pub channel_at : ℕ → Option Channel
    pub next_channel : ℕ
    pub sent : List (ℕ × Response)
    pub closed : List ℕ

  -- A run ends with a value and a state, or the code does what C leaves undefined: it reads through
  -- NULL or a freed pointer, or writes past the end of an array.
  pub data Run (A : Type 0) : Type 0 where
    ok : A → World → Run A
    crash : Run A

  abbrev pub M : Type 0 → Type 0
  M A = World → Run A

  unfoldable pub pure : {A : Type 0} → A → M A
  pure a w = ok a w

  infixl 5 ◌>>=◌ ◌>>◌
  unfoldable pub ◌>>=◌ : {A B : Type 0} → M A → (A → M B) → M B
  ◌>>=◌ m f w = elim (m w) [ ok a v ↦ f a v | crash ↦ crash ]

  unfoldable pub ◌>>◌ : {B : Type 0} → M (Unit {0}) → M B → M B
  m >> k = m >>= λ _. k

  unfoldable pub fault : {A : Type 0} → M A
  fault w = crash

  -- The global server, and writes to it.
  unfoldable pub get_server : M Server
  get_server w = ok w.server w

  unfoldable pub modify_server : (Server → Server) → M (Unit {0})
  modify_server f w = ok tt (record w { server = f w.server })

  abbrev pub update {ℓ} : {A : Type ℓ} → (ℕ → A) → ℕ → A → ℕ → A
  update f p v q = if p == q then v else f q

  -- Reads and writes through a pointer to a client.
  unfoldable pub load_client : ℕ → M Client
  load_client p w = elim (w.client_at p) [ none ↦ crash | some c ↦ ok c w ]

  unfoldable pub store_client : ℕ → Option Client → M (Unit {0})
  store_client p c w = ok tt (record w { client_at = update w.client_at p c })

  unfoldable pub modify_client : ℕ → (Client → Client) → M (Unit {0})
  modify_client p f = load_client p >>= λ c. store_client p (some (f c))

  -- A branch on a value that may be absent.
  unfoldable pub maybe : {A B : Type 0} → Option A → M B → (A → M B) → M B
  maybe none m f = m
  maybe (some a) m f = f a

  -- Reads and writes through a pointer to a channel.
  unfoldable pub load_channel : ℕ → M Channel
  load_channel p w = elim (w.channel_at p) [ none ↦ crash | some c ↦ ok c w ]

  unfoldable pub store_channel : ℕ → Option Channel → M (Unit {0})
  store_channel p c w = ok tt (record w { channel_at = update w.channel_at p c })

  -- The value of a pointer that is not NULL.
  unfoldable pub deref : Option ℕ → M ℕ
  deref none = fault
  deref (some p) = pure p

  -- `calloc`.
  unfoldable pub alloc_client : M ℕ
  alloc_client w = ok w.next_client (record w { next_client = w.next_client + 1 })

  unfoldable pub alloc_channel : M ℕ
  alloc_channel w = ok w.next_channel (record w { next_channel = w.next_channel + 1 })

  -- `write(fd, response->response, response->len)`. No caller looks at its result. The log has what
  -- the call is given, the array's text and the length, also for a descriptor that is closed; where
  -- the length is more than the array's 513 bytes, what `write` reads behind the array is not in it.
  unfoldable pub write : ℕ → Response → M (Unit {0})
  write fd r w = ok tt (record w { sent = w.sent ++ ((fd, r) ∷ []) })

  -- `close(fd)`
  unfoldable pub close_fd : ℕ → M (Unit {0})
  close_fd fd w = ok tt (record w { closed = w.closed ++ (fd ∷ []) })

  -- The string at a pointer into the message buffer of a client's connection.
  unfoldable pub read_string : ℕ → Ptr → M Bytes
  read_string client none = fault
  read_string client (some p) = load_client client >>= λ c. pure (string_at c.conn.message p)

  -- The same where NULL is allowed.
  unfoldable pub read_string? : ℕ → Ptr → M (Option Bytes)
  read_string? client none = pure none
  read_string? client (some p) =
      load_client client >>= λ c. pure (some (string_at c.conn.message p))

  -- The bytes up to the first NUL in lower case.
  abbrev pub lower_string : Bytes → Bytes
  lower_string [] = []
  lower_string (c ∷ cs) = if c == 0 then c ∷ cs else to_lower c ∷ lower_string cs

  -- `for (c = s; *c; c++) *c = (char) tolower((int) *c)`, in place.
  unfoldable pub lower_in_place : ℕ → Ptr → M (Unit {0})
  lower_in_place client none = fault
  lower_in_place client (some p) = modify_client client (λ c. record c {
    conn = record (c.conn) {
      message = take p c.conn.message ++ lower_string (drop p c.conn.message);
    };
  })
