-- ===== src/Nftables.antt =====
-- src/nftables.rs: the text of the rule set.
mod Examples
use Prim.Native.Nat.{zero, suc, ◌/◌}
use mathlib.Core.Logic.{dite}
use mathlib.Core.WellFounded.{Acc, WellFounded}
use native.Mathlib.Decide.{dec_lt}
use ftp_reolink.Base.{ℕ, ◌%◌, ◌<◌, String, ◌<>◌, List, [], ◌∷◌, arith}
use ftp_reolink.Config.{Config}

-- `[String]::concat`
abbrev pub concat : List String → String
concat [] = ""
concat (s ∷ rest) = s <> concat rest

abbrev pub at_index : ℕ → List String → String
at_index n [] = ""
at_index zero (s ∷ rest) = s
at_index (suc n) (s ∷ rest) = at_index n rest

abbrev pub digit : ℕ → String
digit n = at_index n ("0" ∷ "1" ∷ "2" ∷ "3" ∷ "4" ∷ "5" ∷ "6" ∷ "7" ∷ "8" ∷ "9" ∷ [])

acc_below : (k n : ℕ) → n < k → Acc ◌<◌ n
acc_below zero n h = absurd (omega arith)
acc_below (suc k) n h = Acc.intro n λ m lt. acc_below k m (omega arith)

unfoldable pub lt_wf : WellFounded ◌<◌
unfolding acc_below
lt_wf = record { apply = λ n. acc_below (suc n) n (omega arith) }

pub tenth_lt : {n : ℕ} → 9 < n → n / 10 < n
tenth_lt h = omega arith

unfoldable pub decimal : (n : ℕ) → Acc ◌<◌ n → String
decimal n (Acc.intro _ smaller) =
    dite (dec_lt 9 n) (λ h. decimal (n / 10) (smaller (n / 10) (tenth_lt h)) <> digit (n % 10))
      (λ _. digit n)

-- `Display` of an unsigned integer
unfoldable pub show : ℕ → String
unfolding decimal
show n = decimal n (lt_wf.apply n)

unfoldable pub render_nftables : Config → String
unfolding show
render_nftables cfg =
    let port = show cfg.server.port in
    let plo = show cfg.server.passive_lo in
    let phi = show cfg.server.passive_hi in
    let per_ip = show cfg.limits.max_connections_per_ip in
    let global = show cfg.limits.max_connections in
    concat (
      "table inet reoftpd {\n" ∷ "\tchain input {\n"
      ∷ "\t\ttype filter hook input priority filter; policy accept;\n"
      ∷ "\t\t# Global cap on the FTP control port (backstop to the in-process session cap)\n"
      ∷ "\t\ttcp dport " ∷ port ∷ " ct state new ct count over " ∷ global ∷ " drop\n"
      ∷ "\t\t# Per-source-IP cap on control + passive data ports\n" ∷ "\t\ttcp dport { " ∷ port
      ∷ ", " ∷ plo ∷ "-" ∷ phi ∷ " } ct state new meter reoftpd_perip { ip saddr ct count over "
      ∷ per_ip ∷ " } drop\n" ∷ "\t}\n" ∷ "}\n" ∷ [])
