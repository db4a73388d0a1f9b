-- ===== src/Mcp/Storage/Failing.antt =====
-- Sequences of store operations on a disk that fails and recovers.
use tri_onyx.Base.{Bool, true, false, List, [], ◌∷◌, String, ◌≡◌, ◌⊎◌, inl, inr, refl, Bool-cases}
use tri_onyx.Mcp.Storage.{Tables, document, OAuthStore, save}
use tri_onyx.Mcp.Storage.Keeping.{IsKept}
use tri_onyx.Mcp.Storage.History.{StoreOp, run, run-IsKept}

-- A call of the store, or a change of whether the disk takes writes.
pub data DiskOp : Type 0 where
  call : StoreOp → DiskOp
  takes_writes : Bool → DiskOp

-- The file holds the tables, unless there is no file, or the last write is known to have failed.
abbrev pub IsTracked : OAuthStore → Type 0
IsTracked s = (s.has_path ≡ false) ⊎ (s.write_failed ≡ true) ⊎ (s.file ≡ document s.tables)

pub save-IsTracked :
    (t : Tables) (s : OAuthStore) → IsTracked s → IsTracked (save (record s { tables = t }))
unfolding save
save-IsTracked t s h = elim (Bool-cases s.has_path) [
  | inr memory ↦ inl memory
  | inl path ↦ elim (Bool-cases s.writable) [
    | inl takes ↦ inr (inr (rw (path, takes) refl))
    | inr fails ↦ inr (inl (rw (path, fails) refl))
  ]
]

abbrev pub IsTracking : OAuthStore → Type 0
IsTracking = IsKept IsTracked save-IsTracked

module _ (sha256_hex : String → String) where
  abbrev pub happen : DiskOp → OAuthStore → OAuthStore
  happen (call op) s = run sha256_hex op s
  happen (takes_writes w) s = record s { writable = w }

  abbrev pub happen_all : List DiskOp → OAuthStore → OAuthStore
  happen_all [] s = s
  happen_all (op ∷ ops) s = happen_all ops (happen op s)

  happen-IsTracking : (op : DiskOp) (s : OAuthStore) → IsTracking s → IsTracking (happen op s)
  happen-IsTracking (call op) s h = run-IsKept sha256_hex IsTracked save-IsTracked op s h
  happen-IsTracking (takes_writes w) s h = record {
    disk = h.disk;
    dicts = h.dicts;
    bounded = h.bounded;
  }

  -- Whatever the operations, their order, and when the disk fails and recovers: no table gets a key twice, the
  -- client table stays within its capacity, and the file holds the tables, unless the store has no path or has
  -- noted that its last write failed. All of this is to hold at the start.
  pub happen_all-IsTracking :
      (ops : List DiskOp) (s : OAuthStore) → IsTracking s → IsTracking (happen_all ops s)
  happen_all-IsTracking [] s h = h
  happen_all-IsTracking (op ∷ ops) s h =
      happen_all-IsTracking ops (happen op s) (happen-IsTracking op s h)
