-- ===== src/Trie/Patricia/Map.antt =====
-- crates/trie/src/trie.rs: `PatriciaTrie` as a map from keys to values.
use ethereum_rust.Base.{
  ℕ, suc, ◌<◌, ◌≡◌, ◌≢◌, refl, sym, ap, ◌∙◌, List, [], ◌∷◌, none, some, arith, length, All,
  if◌then◌else◌,
}
use ethereum_rust.Base.Result.{Result, ok, ◌>>=◌}
use ethereum_rust.Trie.Nibbles
use ethereum_rust.Trie.Nibbles.{from_bytes, to_bytes, spread}
use ethereum_rust.Trie.Nibbles.Bytes.{to_bytes-from_bytes}
use ethereum_rust.Trie.Nibbles.Split.{IsPath}
use ethereum_rust.Trie.Node.{Externals, TrieError}
use ethereum_rust.Trie.Patricia.{PatriciaTrie, get, insert, delete, path, enough, same}
use ethereum_rust.Trie.Patricia.Holds.{Holds}
use ethereum_rust.Trie.Patricia.WellFormed.{WfNode}
use ethereum_rust.Trie.Patricia.Updated.{Value, Loads, Keeps, Updated, Holds-total}
use ethereum_rust.Trie.Patricia.Inserted.{insert_at_node-Updated}
use ethereum_rust.Trie.Patricia.Deleted.{is_some, delete_at_node-Deletes}

abbrev pub IsBytes : List ℕ → Type 0
IsBytes = All (λ b. b < 256)

path-IsPath : (key : List ℕ) → IsBytes key → IsPath (path key)
unfolding from_bytes spread
path-IsPath [] i = tt
path-IsPath (b ∷ key) i = (omega (arith, i.0), (omega arith, path-IsPath key i.1))

some-injective : {A : Type 0} {a b : A} → some a ≡ some b → a ≡ b
some-injective h = cc h

path-injective : (a b : List ℕ) → IsBytes a → IsBytes b → path a ≡ path b → a ≡ b
path-injective a b i j e =
    some-injective (
      sym (to_bytes-from_bytes a i)
      ∙ ap (λ z. to_bytes (Nibbles.new z)) e
      ∙ to_bytes-from_bytes b j)

-- A map as a function, with one key changed.
abbrev pub update : (List ℕ → Value) → List ℕ → Value → List ℕ → Value
update f key v q = if same q key then v else f q

-- The operations of a client.
pub data Op : Type 0 where
  insert_op : List ℕ → List ℕ → Op
  delete_op : List ℕ → Op

abbrev pub key_of : Op → List ℕ
key_of (insert_op key v) = key
key_of (delete_op key) = key

unfoldable pub apply : Externals → Op → PatriciaTrie → Result TrieError PatriciaTrie
apply x (insert_op key v) t = insert x key v t
apply x (delete_op key) t = delete x key t >>= λ (deleted, t'). ok t'

unfoldable pub run : Externals → List Op → PatriciaTrie → Result TrieError PatriciaTrie
run x [] t = ok t
run x (op ∷ ops) t = apply x op t >>= λ t'. run x ops t'

-- The same operations on a function.
abbrev pub apply_spec : Op → (List ℕ → Value) → List ℕ → Value
apply_spec (insert_op key v) f = update f key (some v)
apply_spec (delete_op key) f = update f key none

abbrev pub replay : List Op → (List ℕ → Value) → List ℕ → Value
replay [] f = f
replay (op ∷ ops) f = replay ops (apply_spec op f)

module _ (x : Externals) (Stored : List ℕ → Type 0) (loads : Loads x Stored)
    (keeps : Keeps x Stored) where
  abbrev pub WellFormed : PatriciaTrie → Type 0
  WellFormed t = WfNode Stored t.root

  get-Holds :
      (t : PatriciaTrie) (key : List ℕ) (o : Value)
      → Holds x t.root (path key) o
      → get x t key ≡ ok o
  unfolding get Holds
  get-Holds t key o h = h (suc (length (path key))) (omega arith)

  -- A well-formed trie answers every key.
  pub get-total :
      (t : PatriciaTrie) (key : List ℕ)
      → WellFormed t
      → IsBytes key
      → (o : Value) × Holds x t.root (path key) o × (get x t key ≡ ok o)
  get-total t key w i =
      let (o, h) = Holds-total x Stored loads keeps t.root (path key) w (path-IsPath key i) in
      (o, h, get-Holds t key o h)

  get-others :
      (t t' : PatriciaTrie) (key : List ℕ) (v : Value)
      → WellFormed t
      → IsBytes key
      → Updated x Stored loads keeps t.root (path key) v t'.root
      → (q : List ℕ) → IsBytes q
      → q ≢ key
      → get x t' q ≡ get x t q
  get-others t t' key v w i u q j d =
      let (o, h, e) = get-total t q w j in
      get-Holds t' q o
        (u.others (path q) o (path-IsPath q j) (λ g. d (path-injective q key j i g)) h)
      ∙ sym e

  -- An insertion of a byte key into a well-formed trie succeeds without a panic and within the fuel; the
  -- new trie is well formed, has the value at the key, and answers every other byte key as before,
  -- under `Loads` and `Keeps`.
  pub get-insert :
      (key v : List ℕ) (t : PatriciaTrie)
      → WellFormed t
      → IsBytes key
      → (t' : PatriciaTrie) × (insert x key v t ≡ ok t')
        × WellFormed t'
        × (get x t' key ≡ ok (some v))
        × ((q : List ℕ) → IsBytes q → q ≢ key → get x t' q ≡ get x t q)
  unfolding insert
  get-insert key v t w i =
      let (m, e, u) =
        insert_at_node-Updated x Stored loads keeps (enough (path key)) t.root (path key) v
          (omega arith) w (path-IsPath key i) in
      let t' : PatriciaTrie = record { root = m; cached = none } in
      (
        t',
        rw e refl,
        u.formed,
        get-Holds t' key (some v) u.here,
        get-others t t' key (some v) w i u,
      )

  -- A deletion of a byte key from a well-formed trie succeeds and says whether the trie had a value for
  -- the key; the new trie is well formed, has nothing at the key, and answers every other byte key as before,
  -- under `Loads` and `Keeps`.
  pub get-delete :
      (key : List ℕ) (t : PatriciaTrie)
      → WellFormed t
      → IsBytes key
      → (o : Value) × (t' : PatriciaTrie) × (get x t key ≡ ok o)
        × (delete x key t ≡ ok (is_some o, t'))
        × WellFormed t'
        × (get x t' key ≡ ok none)
        × ((q : List ℕ) → IsBytes q → q ≢ key → get x t' q ≡ get x t q)
  unfolding delete
  get-delete key t w i =
      let d =
        delete_at_node-Deletes x Stored loads keeps (enough (path key)) t.root (path key)
          (omega arith) w (path-IsPath key i) in
      let t' : PatriciaTrie = record { root = d.node; cached = none } in
      let u = d.updated in
      (
        d.before,
        t',
        get-Holds t key d.before d.held,
        rw d.runs (rw d.told refl),
        u.formed,
        get-Holds t' key none u.here,
        get-others t t' key none w i u,
      )
