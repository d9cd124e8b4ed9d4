-- ===== src/Examples.antt =====
-- Tests of the definitions on concrete inputs, and the theorems applied at such inputs. No part of the
-- program.
mod QueueExamples
mod ChoiceExamples
mod PendingExamples
mod ContentExamples
mod TorrentExamples
mod HistoryExamples
mod RelocateExamples
mod CarryExamples
mod MseExamples
mod StreamExamples
mod WatchExamples
mod MappingExamples
mod SessionExamples
mod Fixtures
mod JournalExamples
mod SelectingExamples
mod AddingExamples
mod PublishingExamples
mod ArrivalExamples
mod EngineExamples
mod GeoExamples
mod FlagExamples
mod TreeExamples
mod WindowExamples
mod LabelsExamples
mod UpdateExamples
