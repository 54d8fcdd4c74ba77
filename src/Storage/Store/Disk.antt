-- ===== src/Storage/Store/Disk.antt =====
-- What the store relies on of the JSON package and of the file system.
use scalp_bot_os.Base.{Bool, true, ◌≡◌, ◌⊎◌, inl, inr, none, Text, arith}
use scalp_bot_os.Storage.Store.{File, content, Saved, write_encoded}

-- A value that was encoded is decoded to itself, and a write without an error leaves its bytes.
pub record IsFaithful {A C : Type 0} (decode : C → A × Bool) (encode : A → C ⊎ Text)
    (write : C → Saved C) : Type 0 where
  pub decodes : (a : A) (c : C) → encode a ≡ inl c → decode c ≡ (a, true)
  pub writes : (c : C) → (write c).1 ≡ none → (write c).0 ≡ content c

pub saved-content :
    {A C : Type 0} (decode : C → A × Bool) (encode : A → C ⊎ Text) (write : C → Saved C)
    → IsFaithful decode encode write
    → (file : File C) (a : A) (encoded : C ⊎ Text) → encode a ≡ encoded
    → (write_encoded write file encoded).1 ≡ none
    → (c : C) × ((write_encoded write file encoded).0 ≡ content c) × (decode c ≡ (a, true))
saved-content decode encode write h file a (inl c) e saved = (c, h.writes c saved, h.decodes a c e)
saved-content decode encode write h file a (inr error) e saved = absurd (ground (arith, saved))
