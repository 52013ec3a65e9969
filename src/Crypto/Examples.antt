-- ===== src/Crypto/Examples.antt =====
-- Tests of src/crypto.rs: an age that writes a header, every chunk under a length, and a last zero.
use native.Mathlib.Decide.{ℕ_discrete}
use ftp_reolink.Base.{
  ℕ, ◌≡◌, refl, true, false, Option, none, some, List, [], ◌∷◌, ok, err, length, nat_eq,
}
use ftp_reolink.Disk.{Disk, write_effect}
use ftp_reolink.Disk.Act.{World, raise, at_turn, take_turn, wrap_err, ◌>>=◌}
use ftp_reolink.Store.{Input, store_encrypted}
use ftp_reolink.Crypto.{
  Age, unencryptable, encrypt_stream, copy_sealed, finish_sealed, write_pieces,
}
use ftp_reolink.Crypto.Sealing.{sealed_by, store_encrypted_by, store_encrypted_lem}
use ftp_reolink.Path.{root_dir, normal}

abbrev header_for : List ℕ → Option (List (List ℕ) × ℕ)
header_for [] = none
header_for (r ∷ recipients) = some ((r ∷ []) ∷ [], 0)

abbrev counting : Age ℕ ℕ
counting = record {
  with_recipients = header_for;
  write = λ n c. ((length c ∷ c) ∷ [], n);
  finish = λ n. (0 ∷ []) ∷ [];
}

abbrev upload : Input
upload = record { chunks = (5 ∷ 6 ∷ []) ∷ (7 ∷ []) ∷ []; breaks = false }

abbrev blank : Disk
blank = record { names = []; bytes = λ i. []; modes = λ i. 438; next = 1 }

-- The third call fails.
abbrev shaky : World
shaky = record {
  disk = blank;
  turns =
      record { meanwhile = λ d. d; fault = false }
      ∷ record { meanwhile = λ d. d; fault = false }
      ∷ record { meanwhile = λ d. d; fault = true }
      ∷ [];
}

abbrev steady : World
steady = record { disk = blank; turns = [] }

counts_plain_bytes : (encrypt_stream counting (8 ∷ []) 0 upload.chunks false steady).0 ≡ ok 3
unfolding encrypt_stream copy_sealed finish_sealed write_pieces take_turn at_turn write_effect
    wrap_err ◌>>=◌
counts_plain_bytes = refl

writes_sealed_bytes :
    (encrypt_stream counting (8 ∷ []) 0 upload.chunks false steady).1.disk.bytes 0
    ≡ 8 ∷ 2 ∷ 5 ∷ 6 ∷ 1 ∷ 7 ∷ 0 ∷ []
unfolding encrypt_stream copy_sealed finish_sealed write_pieces take_turn at_turn write_effect
    wrap_err ◌>>=◌ ℕ_discrete
writes_sealed_bytes = refl

nobody_to_encrypt_for :
    (encrypt_stream counting [] 0 upload.chunks false steady).0 ≡ err unencryptable
unfolding encrypt_stream raise
nobody_to_encrypt_for = refl

store_encrypted_lem_example :
    store_encrypted_by counting (8 ∷ []) (root_dir ∷ normal "clip.mp4.age" ∷ []) upload shaky
    ≡ store_encrypted
        (sealed_by counting (8 ∷ []))
        (root_dir ∷ normal "clip.mp4.age" ∷ [])
        upload
        shaky
store_encrypted_lem_example =
    store_encrypted_lem counting (8 ∷ []) (root_dir ∷ normal "clip.mp4.age" ∷ []) upload shaky
