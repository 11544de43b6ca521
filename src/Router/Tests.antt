-- ===== src/Router/Tests.antt =====
-- The keys of packets.
use diag.Base.{◌≡◌, refl, [], ◌∷◌}
use diag.Router.{dispatch_key}

unknown_key : dispatch_key (7 ∷ 1 ∷ []) ≡ 0xffff0007
unfolding dispatch_key
unknown_key = refl

-- The subsystem 18's code 0x218.
subsys_key : dispatch_key (75 ∷ 18 ∷ 0x18 ∷ 2 ∷ []) ≡ 0x4b120218
unfolding dispatch_key
subsys_key = refl
