-- ===== src/Lib.antt =====
-- Aura-X: the decision logic of the trading system of src/aurax, layer by layer.
--
-- Each bar is labelled (layer 4), given a regime (layer 2) and a side (layer 3) that the meta-model
-- (layer 5) lets through or not; the risk manager (layer 6) turns the sides of all symbols into
-- lots at once; the executor (layer 7) guards, sends and journals the orders; the monitor (layer
-- 8) raises alerts, and decay triggers a retraining whose model is promoted only through the
-- validation gate. Layer 0 keeps the bars, features and labels that all of this reads.
--
-- Files and code:
-- - Prelude: tests, lists, exceptions as results (`Result`), dicts as association lists, integers,
--   and `Float`, the operations of a Python float as an interface: no theorem uses more of it than
--   the laws it names. Prelude/Fixed is an instance to run the model on.
-- - Market: src/aurax/enums.py, types.py; Market/Clock: the timestamps in order ids and the news
--   window.
-- - Config: the deep merge of src/aurax/config.py and its parameter files.
-- - Data: src/aurax/l0_data. Frame is a pandas frame by its index, Store the three parquet stores on
--   a dict of files, Schema and Ingest the frames of the terminal's answers and `Ingestor`,
--   Repository the repositories of src/aurax/db over tables that are an interface, Terminal `MT5Client`.
-- - Risk: src/aurax/l6_risk/sizing.py. Risk/Formulas has the pure functions, Risk/Manager
--   `RiskManager.evaluate`, its dict of decisions changed in place step by step. Risk/Allocation:
--   src/aurax/l6_risk/allocation.py around a policy that is an interface.
-- - Execution: src/aurax/l7_execution. Broker has the protocol, `PaperBroker` and
--   `MT5Broker`; Guards the
--   predicates; Executor `execute`, `execute_all`, the retry loop and the journal, whose state is
--   passed through every call, exceptions included.
-- - Validation: src/aurax/validation. Purge has `_merge_intervals` and `purge_train_times`, Splits the
--   embargo, the cross-validation splitters and the holdout, WalkForward `WalkForwardSplit`, OutOfFold
--   `oof_predict`, Scores metrics.py and backtest.py, Baselines baselines.py, Harness
--   `run_validation`.
-- - Labeling: src/aurax/l4_labeling. Barrier has `triple_barrier_labels`, Trend
--   `trend_scanning_labels`, Uniqueness the sample weights of uniqueness.py, Labeler
--   labeler.py, which takes its ATR from the features.
-- - Features: src/aurax/l1_features. Series is what it uses of pandas; Base, Volatility, TrendMemory,
--   Sessions, CrossPair and Pipeline are its files. Trailing and Heads have the lemmas that lead to
--   PointInTime.
-- - Regimes: `RegimeDetector` of src/aurax/l2_regime/detector.py: Detector has its rules and what it
--   makes of the states, Fitting its fit and predictions. Hmm: `GaussianHMM` of hmm.py.
-- - Primary: base.py, ensemble.py and windows.py of src/aurax/l3_primary; Primary/Members: members.py
--   and the fit of the ensemble. Primary/Sequence: `SequenceSideModel` of deep.py.
-- - Meta: src/aurax/l5_meta. Calibration has calibration.py, Model `MetaLabelModel` around a base
--   learner that is an interface, Logistic the one it has by default, Gated features.py and
--   `MetaGatedPrimary`, Training `train_meta_labeler`.
-- - Monitoring: src/aurax/l8_monitoring. Lifecycle: the decision that ends `run_validation` of
--   src/aurax/validation/harness.py, and src/aurax/lifecycle/retrain.py.
-- - Tests: the theorems at concrete inputs.
--
-- Every loop but one is a recursion on the list it walks or on the number of its rounds, and the retry
-- loop runs on its `max_retries + 1` attempts. The loop over the tick history runs on fuel: its
-- chunk is a setting, and with a chunk that is not zero the milliseconds of the range are enough.
-- numpy, pandas and scipy enter as records of the operations that are called, with documented laws
-- where a theorem needs them; the rows of a frame are list positions.
--
-- Not modelled: the MetaTrader terminal itself, the connection to the database, HTTP and logging,
-- which are I/O; LightGBM, CatBoost and PyTorch, which are libraries; the settings that come from the
-- environment and, but for the one of the feature pipeline, the readers of parameter dicts, which
-- fill in defaults; src/aurax/lifecycle/training.py
-- and scripts/, which call the parts above in order; the MQL5 and SQL sources, which are other languages.
pub mod Prelude
pub mod Market
pub mod Config
pub mod Data
pub mod Risk
pub mod Execution
pub mod Features
pub mod Validation
pub mod Labeling
pub mod Primary
pub mod Regimes
pub mod Monitoring
pub mod Meta
pub mod Lifecycle
pub mod Tests
