-- ===== src/Compiler.antt =====
-- Two parts of the compiler: src/contract_parser.zig, which reads the declarations and constants of
-- companion files, and src/control_flow_rules.zig, the consumption of macro parameters and how the
-- states of values are merged where branches meet.
pub mod Text
pub mod Contracts
pub mod Defines
pub mod TextLaws
pub mod ContractPrinter
pub mod ContractLaws
pub mod ContractLine
pub mod ContractRoundTrip
pub mod ConstantValue
pub mod Constants
pub mod ConstantRoundTrip
pub mod Syntax
pub mod Consumption
pub mod Paths
pub mod Regular
pub mod Branches
pub mod ConsumptionLaws
pub mod ConsumptionFacts
pub mod ConsumptionExact
pub mod BranchLaws
pub mod TryLaws
pub mod ScrutineeLaws
pub mod Lexing
