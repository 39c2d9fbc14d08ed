-- ===== src/Basics.antt =====
-- Short programs of demos/rosetta: functions of a line, values, references and layouts.
pub mod Functions
pub mod Values
