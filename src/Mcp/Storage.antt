-- ===== src/Mcp/Storage.antt =====
-- mcp_server/mcp_server/storage.py: the store of OAuth clients and hashed tokens.
-- SHA-256 (hashlib) is the parameter `sha256_hex`. Times are milliseconds. The backing
-- file is the field `file`; `writable` says whether the operating system lets it be replaced.
pub mod Clients
pub mod History
pub mod Keeping
pub mod Failing
pub mod Holders
pub mod Pruning
pub mod Pruned
pub mod Evicted
use tri_onyx.Base.{
  ℕ, ◌+◌, String, Bool, true, false, not, ◌&&◌, List, [], ◌∷◌, ◌++◌, map, Option, none, some, ltb,
  leb, ◌==◌, if◌then◌else◌, length, keep, contains, is_nonempty, whole_seconds, String_eq,
}
use tri_onyx.Dict.{Dict, get, put, remove, remove_all, select, keys, values, min_by}

-- What a record may hold under `client_id_issued_at`: nothing, null, a number (or a text that
-- `float` reads), or anything else.
pub data Stamp : Type 0 where
  absent null malformed : Stamp
  number : ℕ → Stamp

-- A registered client. The fields of the record that no code reads are left out.
pub record Client : Type 0 where
  pub client_name : Option String
  pub redirect_uris : List String
  pub token_endpoint_auth_method : String
  pub client_secret : Option String
  pub client_id_issued_at : Stamp

pub record AccessRecord : Type 0 where
  pub client_id : String
  pub scopes : List String
  pub expires_at : Option ℕ
  pub resource : Option String
  pub subject : Option String

pub record RefreshRecord : Type 0 where
  pub client_id : String
  pub scopes : List String
  pub expires_at : Option ℕ
  pub absolute_expires_at : Option ℕ
  pub resource : Option String
  pub subject : Option String
  pub access_hash : Option String

-- The JSON document that the store reads and writes.
pub record Tables : Type 0 where
  pub clients : Dict String Client
  pub access : Dict String AccessRecord
  pub refresh : Dict String RefreshRecord

pub data File : Type 0 where
  missing unreadable unexpected_format : File
  document : Tables → File

pub record OAuthStore : Type 0 where
  pub has_path : Bool
  pub max_clients : ℕ
  pub client_ttl : ℕ
  pub tables : Tables
  pub open tables use *
  pub write_failed : Bool
  pub file : File
  pub writable : Bool

unfoldable pub save : OAuthStore → OAuthStore
save s = record s {
  file = if s.has_path && s.writable then document s.tables else s.file;
  write_failed = if s.has_path then not s.writable else s.write_failed;
}

-- -- Clients

unfoldable pub client_ids_with_tokens : OAuthStore → List String
client_ids_with_tokens s =
    map (λ (r : AccessRecord). r.client_id) (values s.access)
    ++ map (λ (r : RefreshRecord). r.client_id) (values s.refresh)

-- `float(record.get("client_id_issued_at") or 0.0)`, and 0.0 where that raises
unfoldable pub issued_at : Client → ℕ
issued_at c = elim c.client_id_issued_at [ number n ↦ n | _ ↦ 0 ]

-- `_issued_at(self._clients[cid])`; the candidates are keys of the table
unfoldable pub issued_at_of : OAuthStore → String → ℕ
unfolding issued_at
issued_at_of s cid = elim (get cid s.clients) [ none ↦ 0 | some c ↦ issued_at c ]

abbrev pub or_else {ℓ} : {A : Type ℓ} → List A → List A → List A
or_else [] ys = ys
or_else (x ∷ xs) ys = x ∷ xs

unfoldable pub eviction_candidates : OAuthStore → List String
eviction_candidates s = keep (λ cid. not (contains cid (client_ids_with_tokens s))) (keys s.clients)

unfoldable pub preferred_candidates : List String → OAuthStore → List String
preferred_candidates protected s =
    or_else (keep (λ cid. not (contains cid protected)) (eviction_candidates s))
      (eviction_candidates s)

unfoldable pub evict_one_client : List String → OAuthStore → Bool × OAuthStore
evict_one_client protected s = elim (min_by (issued_at_of s) (preferred_candidates protected s)) [
  | none ↦ (false, s)
  | some oldest ↦
      (true, record s { tables = record s.tables { clients = remove oldest s.clients } })
]

-- `record.setdefault("client_id_issued_at", int(time.time()))`
unfoldable pub stamped : ℕ → Client → Client
stamped now c = elim c.client_id_issued_at [
  | absent ↦ record c { client_id_issued_at = number (whole_seconds now) }
  | _ ↦ c
]

unfoldable pub store_client : String → Client → ℕ → OAuthStore → OAuthStore
unfolding save stamped
store_client client_id client now s = save (record s {
  tables = record s.tables { clients = put client_id (stamped now client) s.clients };
})

unfoldable pub is_full_for : String → OAuthStore → Bool
is_full_for client_id s =
    not (contains client_id (keys s.clients)) && leb s.max_clients (length s.clients)

-- The clock reading `now` is the one of the timestamp.
unfoldable pub put_client : String → Client → List String → ℕ → OAuthStore → Bool × OAuthStore
put_client client_id client protected now s =
    if is_full_for client_id s
    then (let (evicted, s') = evict_one_client protected s in
        if evicted then (true, store_client client_id client now s') else (false, s'))
    else (true, store_client client_id client now s)

unfoldable pub get_client : String → OAuthStore → Option Client
get_client client_id s = get client_id s.clients

-- -- Tokens

unfoldable pub delete_access_token_hash : String → OAuthStore → OAuthStore
unfolding save
delete_access_token_hash digest s = elim (get digest s.access) [
  | none ↦ s
  | some _ ↦ save (record s { tables = record s.tables { access = remove digest s.access } })
]

unfoldable pub delete_refresh_token_hash : String → OAuthStore → OAuthStore
unfolding save
delete_refresh_token_hash digest s = elim (get digest s.refresh) [
  | none ↦ s
  | some _ ↦ save (record s { tables = record s.tables { refresh = remove digest s.refresh } })
]

-- `rec.get("access_hash") == access_hash`
unfoldable pub minted : String → String → RefreshRecord → Bool
minted access_hash digest r = elim r.access_hash [ none ↦ false | some h ↦ h == access_hash ]

unfoldable pub delete_refresh_tokens_for_access : String → OAuthStore → ℕ × OAuthStore
unfolding save
delete_refresh_tokens_for_access access_hash s =
    let digests = select (minted access_hash) s.refresh in
    (
      length digests,
      (if is_nonempty digests
          then save
              (record s { tables = record s.tables { refresh = remove_all digests s.refresh } })
          else s),
    )

module _ (sha256_hex : String → String) where
  unfoldable pub hash_token : String → String
  hash_token token = sha256_hex token

  unfoldable pub put_access_token : String → AccessRecord → OAuthStore → String × OAuthStore
  unfolding hash_token save
  put_access_token token r s =
      let digest = hash_token token in
      (digest, save (record s { tables = record s.tables { access = put digest r s.access } }))

  unfoldable pub get_access_token : String → OAuthStore → Option AccessRecord
  unfolding hash_token
  get_access_token token s = get (hash_token token) s.access

  unfoldable pub put_refresh_token : String → RefreshRecord → OAuthStore → String × OAuthStore
  unfolding hash_token save
  put_refresh_token token r s =
      let digest = hash_token token in
      (digest, save (record s { tables = record s.tables { refresh = put digest r s.refresh } }))

  unfoldable pub get_refresh_token : String → OAuthStore → Option RefreshRecord
  unfolding hash_token
  get_refresh_token token s = get (hash_token token) s.refresh

  unfoldable pub pop_refresh_token : String → OAuthStore → Option RefreshRecord × OAuthStore
  unfolding hash_token save
  pop_refresh_token token s = elim (get (hash_token token) s.refresh) [
    | none ↦ (none, s)
    | some r ↦ (
      some r,
      save
          (record s { tables = record s.tables { refresh = remove (hash_token token) s.refresh } }),
    )
  ]

-- -- Maintenance

-- `expires_at is not None and expires_at < now`
abbrev pub is_past : Option ℕ → ℕ → Bool
is_past none now = false
is_past (some t) now = ltb t now

-- Tokens first; a registration is abandoned if it holds none of those that are left.
unfoldable pub prune_tokens : ℕ → OAuthStore → ℕ × OAuthStore
prune_tokens now s =
    let old_access = select (λ _ (r : AccessRecord). is_past r.expires_at now) s.access in
    let old_refresh = select (λ _ (r : RefreshRecord). is_past r.expires_at now) s.refresh in
    (
      length old_access + length old_refresh,
      record s {
        tables = record s.tables {
          access = remove_all old_access s.access;
          refresh = remove_all old_refresh s.refresh;
        };
      },
    )

unfoldable pub is_abandoned : ℕ → OAuthStore → String → Client → Bool
is_abandoned now s cid c =
    not (contains cid (client_ids_with_tokens s)) && ltb (issued_at c + s.client_ttl) now

unfoldable pub prune_clients : ℕ → OAuthStore → ℕ × OAuthStore
prune_clients now s =
    let old = select (is_abandoned now s) s.clients in
    (length old, record s { tables = record s.tables { clients = remove_all old s.clients } })

unfoldable pub prune : ℕ → OAuthStore → ℕ × OAuthStore
unfolding prune_tokens prune_clients save
prune now s =
    let (tokens, s') = prune_tokens now s in
    let (clients, s'') = prune_clients now s' in
    (tokens + clients, (if leb 1 (tokens + clients) then save s'' else s''))

abbrev pub no_tables : Tables
no_tables = record { clients = []; access = []; refresh = [] }

-- `_load`: without a path there is no file; a file that is not a document leaves the tables empty.
unfoldable pub load : ℕ → OAuthStore → OAuthStore
unfolding prune
load now s =
    if s.has_path
    then elim s.file [ document t ↦ (prune now (record s { tables = t })).1 | _ ↦ s ]
    else s

-- `OAuthStore(path, max_clients=…, client_ttl_seconds=…)`
unfoldable pub open_store : Bool → ℕ → ℕ → File → Bool → ℕ → OAuthStore
unfolding load
open_store has_path max_clients client_ttl file writable now = load now (record {
  has_path = has_path;
  max_clients = max_clients;
  client_ttl = client_ttl;
  tables = no_tables;
  write_failed = false;
  file = file;
  writable = writable;
})
