-- ===== src/Misc/Tests.antt =====
-- Concrete numbers for utils_misc/.
use components_mcu.Prelude.{◌≡◌, refl}
use components_mcu.Misc.Bcd.{bcd2dec, dec2bcd, dec2bcd_special}

packed : bcd2dec (dec2bcd 42) ≡ 42
unfolding bcd2dec dec2bcd
packed = refl

-- From 90 on the special form is read as 60 more.
special : bcd2dec (dec2bcd_special 95) ≡ 155
unfolding bcd2dec dec2bcd_special
special = refl
