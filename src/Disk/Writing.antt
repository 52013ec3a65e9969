-- ===== src/Disk/Writing.antt =====
-- `std::io::Write::write_all`, which src/main.rs and src/tls.rs call: the system takes the bytes in as many
-- writes as it likes.
use ftp_reolink.Base.{
  ℕ, ◌≡◌, refl, ap, List, [], ◌∷◌, ◌++◌, ◌==◌, ◌-◌, nat_eq, if◌then◌else◌, Bool-cases, inl, inr,
}
use ftp_reolink.Disk.{IoError, write_effect}
use ftp_reolink.Disk.Act.{Act, pure, call, ◌>>◌}

-- The first `n` bytes, and the rest.
unfoldable pub cut_at : ℕ → List ℕ → List ℕ × List ℕ
cut_at n [] = ([], [])
cut_at n (b ∷ bytes) =
    let rest = cut_at (n - 1) bytes in if n == 0 then ([], b ∷ bytes) else (b ∷ rest.0, rest.1)

-- `cuts` says how much each write takes beyond a first byte; when it ends, the last one takes all.
unfoldable pub write_all : ℕ → List ℕ → List ℕ → Act IoError (Unit {0})
unfolding cut_at
write_all i [] cuts = pure tt
write_all i (b ∷ bytes) [] = call (write_effect i (b ∷ bytes))
write_all i (b ∷ bytes) (n ∷ cuts) =
    let (some_bytes, rest) = cut_at n bytes in
    call (write_effect i (b ∷ some_bytes)) >> write_all i rest cuts

pub cut_at-append : (n : ℕ) (bytes : List ℕ) → (cut_at n bytes).0 ++ (cut_at n bytes).1 ≡ bytes
unfolding cut_at
cut_at-append n [] = refl
cut_at-append n (b ∷ bytes) = elim (Bool-cases (n == 0)) [
  | inl e ↦ rw e refl
  | inr e ↦ rw e (ap (◌∷◌ b) (cut_at-append (n - 1) bytes))
]
