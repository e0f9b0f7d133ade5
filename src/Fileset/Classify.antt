-- ===== src/Fileset/Classify.antt =====
-- How the classes of files relate.
use rucher.Base.{◌≡◌, refl, contains-disjoint, true, false, String, arith}
use rucher.Base.Text.{ext}
use rucher.Fileset.{unit_exts, systemd_unit_exts, is_unit_file, is_systemd_unit, should_enable}

-- No file is both a Quadlet unit and a native systemd unit.
pub unit-not-systemd : (name : String) → is_unit_file name ≡ true → is_systemd_unit name ≡ false
unfolding is_unit_file is_systemd_unit
unit-not-systemd name h = contains-disjoint unit_exts systemd_unit_exts (ext name) refl h

pub should_enable-systemd :
    (name content : String) → should_enable name content ≡ true → is_systemd_unit name ≡ true
unfolding should_enable is_systemd_unit
should_enable-systemd name content h = ground arith

-- An enabled file is never started as a Quadlet unit.
pub should_enable-not-unit :
    (name content : String) → should_enable name content ≡ true → is_unit_file name ≡ false
should_enable-not-unit name content h =
    ground (arith, unit-not-systemd name, should_enable-systemd name content)
