-- ===== src/Func.antt =====
-- func.h: one function for each instruction, by groups.
pub mod Alu
pub mod AluImm
pub mod Word
pub mod MulDiv
pub mod Branch
pub mod Memory
pub mod Float
pub mod Scall
pub mod Frame
pub mod Framed
pub mod FramedMachine
pub mod Align
pub mod Aligned
pub mod AlignedMachine
pub mod Control
pub mod Roundtrip
pub mod ScallFrame
pub mod Division
pub mod Integer
pub mod Defects
