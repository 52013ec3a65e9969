-- ===== src/Nftables/Examples.antt =====
-- Unit tests of src/nftables.rs.
use native.Mathlib.Decide.{dec_lt}
use ftp_reolink.Base.{◌≡◌, refl}
use ftp_reolink.Nftables.{decimal, lt_wf, show}

shows_a_port : show 50100 ≡ "50100"
unfolding show decimal lt_wf dec_lt
shows_a_port = refl

shows_zero : show 0 ≡ "0"
unfolding show decimal lt_wf dec_lt
shows_zero = refl
