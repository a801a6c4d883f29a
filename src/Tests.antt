-- ===== src/Tests.antt =====
-- Runs of the model at small inputs, and the theorems at inputs that meet their hypotheses.
mod Storage
mod MetatableRuns
mod DirectoryRuns
mod IdTableRuns
mod InodeRuns
mod FolderRuns
mod SourceRuns
mod ExportRuns
mod SuperblockRuns
mod AttrRuns
mod BulkdataRuns
mod XattrRuns
mod ImageRuns
mod FinishRuns
