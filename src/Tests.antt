-- ===== src/Tests.antt =====
-- Concrete runs of the model, and each theorem at a concrete input.
mod Host
mod OrgRuns
mod VoteRuns
mod BankRuns
mod CoinHost
mod FundRuns
mod GroupRuns
mod MolochRuns
