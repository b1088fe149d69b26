-- ===== src/Rules.antt =====
-- public/pages/Rules and public/pages/WazuhRules: the forms of the rule editors, and the rules that
-- they show and submit.
pub mod Loaded
pub mod Mitre
pub mod Compliance
pub mod LogSource
pub mod WazuhEditor
pub mod SigmaEditor
pub mod RuleYaml
mod Tests
