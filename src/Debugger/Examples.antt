-- ===== src/Debugger/Examples.antt =====
-- Tests of the model of hw4, and the theorems applied at concrete inputs.
mod Toy
mod Parts
mod Sessions
